-- ===== src/Paths/Create.antt =====
-- fs/tmpfs/tmpfs.c: what tmpfs_mkfile leaves.
use bomboclaat_os.Base.{
  ℕ, ◌+◌, ◌%◌, ◌^◌, ◌≡◌, ◌≢◌, refl, ap, ap₂, ◌∙◌, ◌⊎◌, true, ◌||◌, List, [], ◌∷◌, ◌++◌, ◌==◌,
  Bool-cases, inl, inr, arith, ==_false,
}
use native.Mathlib.Decide.{ℕ_discrete}
use bomboclaat_os.Tmpfs.{mode_file, new_file}
use bomboclaat_os.Paths.Names.{Texts, same_text, find_named}
use bomboclaat_os.Paths.Space.{VfsInode, TmpDir, TmpEntry, Space, put}
use bomboclaat_os.Paths.Tree.{tmpfs_find_file, link_file, Made, null, panic, made, tmpfs_mkfile}
use bomboclaat_os.Paths.Named.{or_else, only_if, NotIn, find_named-append, find_named_agree}

put_hit {ℓ} : {A : Type ℓ} (p : ℕ) (x : A) (store : ℕ → A) → put p x store p ≡ x
put_hit p x store = let h : (p == p) ≡ true = ground arith in rw h refl

put_miss {ℓ} :
    {A : Type ℓ} (p : ℕ) (x : A) (store : ℕ → A) (q : ℕ) → p ≢ q → put p x store q ≡ store q
put_miss p x store q ne = rw (==_false p q ne) refl

-- The names of a directory's files once a file is linked.
link_file_files :
    (texts : Texts) (dir name p_file : ℕ) (s : Space) (key : List ℕ)
    → NotIn p_file (s.dirs dir).files
    → tmpfs_find_file texts (link_file dir name p_file s) dir key
      ≡ or_else (tmpfs_find_file texts s dir key) (only_if (same_text (texts name) key) p_file)
unfolding tmpfs_find_file
link_file_files texts dir name p_file s key fresh =
    let d = record (s.dirs dir) {
      files = (s.dirs dir).files ++ (p_file ∷ []);
      nfiles = ((s.dirs dir).nfiles + 1) % 2 ^ 32;
    } in
    let f : TmpEntry = record { name = name; dir = dir; data_of = new_file } in
    let name_of : ℕ → ℕ = λ p. (put p_file f s.files p).name in
    let old : ℕ → ℕ = λ p. (s.files p).name in
    let files = (s.dirs dir).files in
    ap (λ (e : TmpDir). find_named texts name_of key e.files) (put_hit dir d s.dirs)
    ∙ find_named-append texts name_of key files p_file
    ∙ ap₂ (λ o n. or_else o (only_if (same_text (texts n) key) p_file))
        (find_named_agree texts name_of old key files p_file fresh
          (λ q ne. ap (λ (e : TmpEntry). e.name) (put_miss p_file f s.files q ne)))
        (ap (λ (e : TmpEntry). e.name) (put_hit p_file f s.files))

any_zero : (a b c : ℕ) → ((a == 0) || ((b == 0) || (c == 0))) ≡ true → (a ≡ 0) ⊎ ((b ≡ 0) ⊎ (c ≡ 0))
any_zero a b c h = elim (ℕ_discrete a 0) [
  | yes z ↦ inl z
  | no nz ↦ elim (ℕ_discrete b 0) [ yes z ↦ inr (inl z) | no nz' ↦ inr (inr (ground arith)) ]
]

-- What tmpfs_mkfile leaves.
pub record MakesFile (texts : Texts) (dir name p_file p_inode : ℕ) (s : Space) (inode : ℕ)
    (s' : Space) : Type 0 where
  pub here : inode ≡ p_inode
  pub names :
      (key : List ℕ)
      → tmpfs_find_file texts s' dir key
        ≡ or_else (tmpfs_find_file texts s dir key) (only_if (same_text (texts name) key) p_file)
  pub object : (s'.inodes p_inode).private_data ≡ p_file
  pub content : (s'.files p_file).data_of ≡ new_file
  pub other_inodes : (q : ℕ) → p_inode ≢ q → s'.inodes q ≡ s.inodes q
  pub other_files : (q : ℕ) → p_file ≢ q → s'.files q ≡ s.files q
  pub other_dirs : (q : ℕ) → dir ≢ q → s'.dirs q ≡ s.dirs q
  pub root : (s'.root_inode ≡ s.root_inode) × (s'.devfs_root_inode ≡ s.devfs_root_inode)

abbrev pub MadeFile :
    (texts : Texts) (dir name p_file p_content p_inode : ℕ) → Space → Made → Type 0
MadeFile texts dir name p_file p_content p_inode s (null s') =
    (s' ≡ s) × (((dir ≡ 0) ⊎ ((p_file ≡ 0) ⊎ (p_content ≡ 0))))
MadeFile texts dir name p_file p_content p_inode s panic =
    (dir ≢ 0) × (p_file ≢ 0) × (p_content ≢ 0) × (p_inode ≡ 0)
MadeFile texts dir name p_file p_content p_inode s (made inode s') =
    MakesFile texts dir name p_file p_inode s inode s'

-- tmpfs_mkfile with memory that no file of the directory has returns null and changes nothing exactly
-- without a directory or without memory for the file, panics without memory for the inode, and else
-- returns an inode of a new empty file. A name then leads to the file that it led to before, if there
-- was one, also if it is the new file's name; only where there was none does the new file's name lead
-- to the new file. No other file, directory or inode changes.
pub tmpfs_mkfile-MadeFile :
    (texts : Texts) (parent name p_file p_content p_inode : ℕ) (s : Space)
    → let dir = (s.inodes parent).private_data in
      NotIn p_file (s.dirs dir).files
      → MadeFile texts dir name p_file p_content p_inode s
          (tmpfs_mkfile parent name p_file p_content p_inode s)
unfolding tmpfs_mkfile tmpfs_find_file
tmpfs_mkfile-MadeFile texts parent name p_file p_content p_inode s fresh =
    let dir = (s.inodes parent).private_data in
    let new_inode : VfsInode = record {
      id = s.next_id;
      size = 0;
      mode = mode_file;
      ops = (s.inodes parent).ops;
      private_data = p_file;
    } in
    let file : TmpEntry = record { name = name; dir = dir; data_of = new_file } in
    let d : TmpDir = record (s.dirs dir) {
      files = (s.dirs dir).files ++ (p_file ∷ []);
      nfiles = ((s.dirs dir).nfiles + 1) % 2 ^ 32;
    } in
    elim (Bool-cases ((dir == 0) || ((p_file == 0) || (p_content == 0)))) [
      | inl missing ↦ rw (missing, tmpfs_mkfile) (refl, any_zero dir p_file p_content missing)
      | inr there ↦ elim (Bool-cases (p_inode == 0)) [
        | inl no_inode ↦
            rw (there, tmpfs_mkfile)
              (rw no_inode (ground arith, ground arith, ground arith, ground arith))
        | inr some_inode ↦
            rw (there, tmpfs_mkfile)
              (rw some_inode (record {
                here = refl;
                names = λ key. link_file_files texts dir name p_file s key fresh;
                object = ap (λ (i : VfsInode). i.private_data) (put_hit p_inode new_inode s.inodes);
                content = ap (λ (f : TmpEntry). f.data_of) (put_hit p_file file s.files);
                other_inodes = λ q ne. put_miss p_inode new_inode s.inodes q ne;
                other_files = λ q ne. put_miss p_file file s.files q ne;
                other_dirs = λ q ne. put_miss dir d s.dirs q ne;
                root = (refl, refl);
              }))
      ]
    ]
