-- ===== src/Vfs/Refs.antt =====
-- fs/vfs/vfs.c and task_inherit_fds: the reference count of an open file is the number of
-- descriptors that hold it.
use bomboclaat_os.Base.{
  ℕ, ◌+◌, ◌^◌, ◌<◌, ◌≡◌, refl, sym, ap, ◌∙◌, ◌≢◌, inl, inr, Option, none, some, ◌==◌, leb,
  if◌then◌else◌, Bool-cases, Option-cases, length, get_or, set, arith,
}
use bomboclaat_os.Base.Int.{ℤ, pos, negsuc}
use bomboclaat_os.Vfs.{
  File, Files, Table, update, drop_ref, close_slot, vfs_close, free_slot, vfs_open,
  max_files_per_task,
}
use bomboclaat_os.Vfs.Table.{occurrences, occurrences-set, occurrences_pos, free_slot-lowest}

abbrev pub count_of : Option File → ℕ
count_of none = 0
count_of (some f) = f.ref_count

abbrev pub refs : Files → ℕ → ℕ
refs files p = count_of (files p)

-- `outside p` counts the references to `p` from other tables.
pub record IsCounted (outside : ℕ → ℕ) (table : Table) (files : Files) : Type 0 where
  pub counts : (p : ℕ) → p ≢ 0 → refs files p ≡ occurrences p table + outside p
  pub live : (p : ℕ) → (f : File) → files p ≡ some f → 0 < f.ref_count
  pub bounded : (p : ℕ) → refs files p < 2 ^ 32

refs-drop_ref :
    (p q : ℕ) (files : Files)
    → refs files p < 2 ^ 32
    → 0 < refs files p
    → refs (drop_ref p files) q + (if p == q then 1 else 0) ≡ refs files q
unfolding drop_ref
refs-drop_ref p q files b l = ground arith

drop_ref-live :
    (p : ℕ) (files : Files)
    → ((q : ℕ) → (f : File) → files q ≡ some f → 0 < f.ref_count)
    → (q : ℕ) → (f : File) → drop_ref p files q ≡ some f
    → 0 < f.ref_count
unfolding drop_ref
drop_ref-live p files live q f h = ground (arith, live q f)

pub close_slot-IsCounted :
    (outside : ℕ → ℕ) (fd : ℕ) (table : Table) (files : Files)
    → fd < length table
    → IsCounted outside table files
    → IsCounted outside (close_slot fd table files).1 (close_slot fd table files).2
unfolding close_slot
close_slot-IsCounted outside fd table files lt v = elim (Bool-cases (get_or table fd 0 == 0)) [
  | inl null ↦ rw null v
  | inr held ↦
      let p = get_or table fd 0 in
      let ne : p ≢ 0 = ground arith in
      let some_ref : 0 < refs files p = omega (arith, v.counts p ne, occurrences_pos table fd ne) in
      rw held (record {
        counts = λ q nz. omega (
          arith,
          refs-drop_ref p q files (v.bounded p) some_ref,
          occurrences-set q table fd 0 lt,
          v.counts q nz,
          zero_ne q nz,
        );
        live = drop_ref-live p files v.live;
        bounded = λ q. omega (arith, refs-drop_ref p q files (v.bounded p) some_ref, v.bounded q);
      })
]
  where
    zero_ne : (q : ℕ) → q ≢ 0 → ◌≡◌ {A = ℕ} (if 0 == q then 1 else 0) 0
    zero_ne q nz = ground arith

-- vfs_close, on every descriptor, keeps each reference count equal to the number of descriptors
-- that hold the file; a file whose last descriptor is closed is freed.
pub vfs_close-IsCounted :
    (outside : ℕ → ℕ) (fd : ℤ) (table : Table) (files : Files)
    → length table ≡ max_files_per_task
    → IsCounted outside table files
    → (table' : Table) × ((vfs_close fd (some table) files).1 ≡ some table')
      × IsCounted outside table' (vfs_close fd (some table) files).2
unfolding vfs_close
vfs_close-IsCounted outside (negsuc n) table files len v = (table, refl, v)
vfs_close-IsCounted outside (pos fd) table files len v =
    elim (Bool-cases (leb max_files_per_task fd)) [
      | inl high ↦ rw high (table, refl, v)
      | inr low ↦ rw low (
        (close_slot fd table files).1,
        refl,
        close_slot-IsCounted outside fd table files (ground arith) v,
      )
    ]

refs-update :
    (files : Files) (p q : ℕ) (f : File)
    → refs (update files p (some f)) q ≡ (if p == q then f.ref_count else refs files q)
refs-update files p q f = ground arith

update-live :
    (files : Files) (p q : ℕ) (f g : File)
    → 0 < f.ref_count
    → ((g : File) → files q ≡ some g → 0 < g.ref_count)
    → update files p (some f) q ≡ some g
    → 0 < g.ref_count
update-live files p q f g h live = elim (Bool-cases (p == q)) [
  | inl e ↦ rw e (λ k. ground arith)
  | inr e ↦ rw e (live g)
]

-- A new object with one reference, put in the free slot `fd`.
install-IsCounted :
    (outside : ℕ → ℕ) (fd p : ℕ) (f : File) (table : Table) (files : Files)
    → f.ref_count ≡ 1
    → p ≢ 0
    → files p ≡ none
    → fd < length table
    → get_or table fd 0 ≡ 0
    → IsCounted outside table files
    → IsCounted outside (set table fd p) (update files p (some f))
install-IsCounted outside fd p f table files one ne new lt empty v = record {
  counts = λ q nz. ground (
    arith,
    refs-update files p q f,
    occurrences-set q table fd p lt,
    v.counts q nz,
    ap count_of new,
  );
  live = λ q g. update-live files p q f g (omega arith) (v.live q);
  bounded = λ q. ground (arith, refs-update files p q f, v.bounded q);
}

-- vfs_open, on every outcome, keeps each reference count equal to the number of descriptors that
-- hold the file, provided that `kmalloc` returned null or memory that holds no open file.
pub vfs_open-IsCounted :
    (outside : ℕ → ℕ) (found : Option (ℕ × ℕ)) (flags fresh : ℕ) (table : Table) (files : Files)
    → (fresh ≢ 0 → files fresh ≡ none)
    → IsCounted outside table files
    → (table' : Table) × ((vfs_open found flags fresh (some table) files).1 ≡ some table')
      × IsCounted outside table' (vfs_open found flags fresh (some table) files).2
unfolding vfs_open
vfs_open-IsCounted outside none flags fresh table files new v =
    elim (Option-cases (free_slot 0 table)) [
      | inl full ↦ rw (full, vfs_open) (table, refl, v)
      | inr (fd, e) ↦ rw (e, vfs_open) (table, refl, v)
    ]
vfs_open-IsCounted outside (some (inode, size)) flags fresh table files new v =
    elim (Option-cases (free_slot 0 table)) [
      | inl full ↦ rw (full, vfs_open) (table, refl, v)
      | inr (fd, e) ↦
          rw (e, vfs_open)
            (elim (Bool-cases (fresh == 0)) [
              | inl null ↦ rw null (table, refl, v)
              | inr ok ↦
                  let (k, at, lt, empty, _) = free_slot-lowest table 0 e in
                  let same : k ≡ fd = omega arith in
                  let nz : fresh ≢ 0 = ground arith in
                  rw ok (
                    set table fd fresh,
                    refl,
                    install-IsCounted outside fd fresh _ table files refl nz (new nz) (omega arith)
                        (sym (ap (λ i. get_or table i 0) same) ∙ empty) v,
                  )
            ])
    ]
