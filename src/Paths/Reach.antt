-- ===== src/Paths/Reach.antt =====
-- fs/vfs/vfs.c: a file that tmpfs_mkfile makes is found by its path.
use bomboclaat_os.Base.{
  ℕ, ◌≡◌, ◌≢◌, refl, ap, ◌∙◌, true, false, ◌||◌, none, some, ◌==◌, subst, inl, inr, arith, ==_false,
}
use bomboclaat_os.Tmpfs.{TmpFile}
use bomboclaat_os.Strings.Laws.{IsText}
use bomboclaat_os.Paths.Names.{Texts, same_text, same_text_iff}
use bomboclaat_os.Paths.Space.{tmpfs_inode_ops, VfsInode, Space}
use bomboclaat_os.Paths.Tree.{tmpfs_find_file, tmpfs_lookup, Made, null, panic, made, tmpfs_mkfile}
use bomboclaat_os.Paths.Find.{
  slash, not_rooted, in_dev, lookup, DentryResult, no_entry, entry_fault, entry, vfs_find,
}
use bomboclaat_os.Paths.Named.{or_else, only_if, NotIn}
use bomboclaat_os.Paths.Create.{MadeFile, tmpfs_mkfile-MadeFile}

-- The inode of the entry has this object and this size.
abbrev pub LeadsTo : (object size : ℕ) → DentryResult → Type 0
LeadsTo object size (no_entry s) = ⊥
LeadsTo object size entry_fault = ⊥
LeadsTo object size (entry d s) =
    let i = s.inodes (s.dentries d).inode in (i.private_data ≡ object) × (i.size ≡ size)

-- A path that names a file of the root.
vfs_find_file :
    (texts : Texts) (path q_inode q_dentry file : ℕ) (s : Space)
    → path ≢ 0
    → not_rooted (texts path) ≡ false
    → same_text (texts path) slash ≡ false
    → in_dev (texts path) ≡ false
    → (s.inodes s.root_inode).ops ≡ tmpfs_inode_ops
    → tmpfs_find_file texts s (s.inodes s.root_inode).private_data (texts path) ≡ some file
    → q_inode ≢ 0
    → q_dentry ≢ 0
    → LeadsTo file (s.files file).data_of.size (vfs_find texts path q_inode q_dentry s)
unfolding vfs_find lookup tmpfs_lookup
vfs_find_file texts path q_inode q_dentry file s real rooted not_root not_dev ops named inode_ne
      dentry_ne =
    let a : ((path == 0) || not_rooted (texts path)) ≡ false = ground arith in
    let i = ==_false q_inode 0 inode_ne in
    let d = ==_false q_dentry 0 dentry_ne in
    let dd : (q_dentry == q_dentry) ≡ true = ground arith in
    let ii : (q_inode == q_inode) ≡ true = ground arith in
    rw (a, vfs_find)
      (rw (not_root) (
        rw not_dev
          (rw (ops, lookup) (rw (named, tmpfs_lookup) (rw i (rw d (rw dd (rw ii (refl, refl)))))))))

-- What a path leads to after tmpfs_mkfile.
abbrev pub CreatedAt : Texts → (path p_file q_inode q_dentry : ℕ) → Made → Type 0
CreatedAt texts path p_file q_inode q_dentry (null s') = ⊥
CreatedAt texts path p_file q_inode q_dentry panic = ⊥
CreatedAt texts path p_file q_inode q_dentry (made inode s') =
    LeadsTo p_file 0 (vfs_find texts path q_inode q_dentry s')

-- tmpfs_mkfile in the root, with memory that no object has and a name that no file of the root has,
-- makes a file, and vfs_find of a path with the same text returns an entry for that file, of size 0.
-- The name is to begin with a slash, but not to be the slash alone nor to begin with /dev/.
pub vfs_find-tmpfs_mkfile :
    (texts : Texts) (name p_file p_content p_inode path q_inode q_dentry : ℕ) (s : Space)
    → let dir = (s.inodes s.root_inode).private_data in
      (s.inodes s.root_inode).ops ≡ tmpfs_inode_ops
      → dir ≢ 0
      → NotIn p_file (s.dirs dir).files
      → p_file ≢ 0
      → p_content ≢ 0
      → p_inode ≢ 0
      → p_inode ≢ s.root_inode
      → tmpfs_find_file texts s dir (texts name) ≡ none
      → path ≢ 0
      → texts name ≡ texts path
      → not_rooted (texts path) ≡ false
      → same_text (texts path) slash ≡ false
      → in_dev (texts path) ≡ false
      → IsText (texts path)
      → q_inode ≢ 0
      → q_dentry ≢ 0
      → CreatedAt texts path p_file q_inode q_dentry
          (tmpfs_mkfile s.root_inode name p_file p_content p_inode s)
vfs_find-tmpfs_mkfile texts name p_file p_content p_inode path q_inode q_dentry s ops dir_ne fresh
      file_ne content_ne inode_ne not_root absent path_ne same rooted plain not_dev text q_ne d_ne =
    created (tmpfs_mkfile s.root_inode name p_file p_content p_inode s)
      (tmpfs_mkfile-MadeFile texts s.root_inode name p_file p_content p_inode s fresh)
  where
    dir : ℕ
    dir = (s.inodes s.root_inode).private_data

    created :
        (m : Made)
        → MadeFile texts dir name p_file p_content p_inode s m
        → CreatedAt texts path p_file q_inode q_dentry m
    created (null s') (unchanged, inl z) = dir_ne z
    created (null s') (unchanged, inr (inl z)) = file_ne z
    created (null s') (unchanged, inr (inr z)) = content_ne z
    created panic (a, b, c, z) = inode_ne z
    created (made inode s') u =
        let root : s'.inodes s'.root_inode ≡ s.inodes s.root_inode =
          ap s'.inodes u.root.0 ∙ u.other_inodes s.root_inode not_root in
        let self = (same_text_iff (texts path) (texts path) text text).1 refl in
        let none_there : tmpfs_find_file texts s dir (texts path) ≡ none =
          subst (λ k. tmpfs_find_file texts s dir k ≡ none) same absent in
        let named : or_else (tmpfs_find_file texts s dir (texts path))
              (only_if (same_text (texts name) (texts path)) p_file)
            ≡ some p_file =
          rw (none_there, same, self) refl in
        let found_file =
          ap (λ (i : VfsInode). tmpfs_find_file texts s' i.private_data (texts path)) root
          ∙ u.names (texts path)
          ∙ named in
        subst (λ n. LeadsTo p_file n (vfs_find texts path q_inode q_dentry s'))
          (ap (λ (f : TmpFile). f.size) u.content)
          (vfs_find_file texts path q_inode q_dentry p_file s' path_ne rooted plain not_dev
            (ap (λ (i : VfsInode). i.ops) root ∙ ops) found_file q_ne d_ne)
