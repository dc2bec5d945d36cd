-- ===== src/Vfs/Tests.antt =====
-- fs/vfs/vfs.c: a table with two open files, the first of them open twice.
use bomboclaat_os.Base.{
  ℕ, ◌+◌, ◌*◌, ◌^◌, ◌<◌, ◌≡◌, refl, ◌≢◌, false, none, some, ◌∷◌, ◌==◌, ==_false, sym, ap, inl, inr,
  Bool-cases, length, replicate, if◌then◌else◌, arith,
}
use bomboclaat_os.Base.Int.{pos}
use bomboclaat_os.Vfs.{
  File, Files, Table, update, drop_ref, close_slot, vfs_close, vfs_open, max_files_per_task,
}
use bomboclaat_os.Vfs.Table.{occurrences}
use bomboclaat_os.Vfs.Refs.{count_of, refs, IsCounted, vfs_close-IsCounted, vfs_open-IsCounted}

abbrev one_table : Table
one_table = 7 ∷ 0 ∷ 7 ∷ replicate 29 0

abbrev one_file : File
one_file = record { inode = 3; offset = 0; flags = 0; ref_count = 2 }

abbrev nothing : Files
nothing p = none

abbrev one_open : Files
one_open = update nothing 7 (some one_file)

abbrev no_others : ℕ → ℕ
no_others p = 0

length-one_table : length one_table ≡ max_files_per_task
length-one_table = refl

held_by : (p : ℕ) → p ≢ 0 → occurrences p one_table ≡ (if 7 == p then 2 else 0)
held_by p nz =
    let null : (0 == p) ≡ false = ==_false 0 p (λ e. nz (sym e)) in
    elim (Bool-cases (7 == p)) [ inl e ↦ rw (e, null) refl | inr e ↦ rw (e, null) refl ]

refs-one_open : (p : ℕ) → refs one_open p ≡ (if 7 == p then 2 else 0)
refs-one_open p = elim (Bool-cases (7 == p)) [ inl e ↦ rw e refl | inr e ↦ rw e refl ]

one_open_live : (p : ℕ) → (f : File) → one_open p ≡ some f → 0 < f.ref_count
one_open_live p f = elim (Bool-cases (7 == p)) [
  | inl e ↦ rw e (λ h. let two = ap count_of h in omega arith)
  | inr e ↦ rw e (λ h. cc)
]

one_open-IsCounted : IsCounted no_others one_table one_open
one_open-IsCounted = record {
  counts = λ p nz. ground (arith, held_by p nz, refs-one_open p);
  live = one_open_live;
  bounded = λ p. ground (arith, refs-one_open p);
}

close_keeps_the_other : refs (vfs_close (pos 0) (some one_table) one_open).2 7 ≡ 1
unfolding vfs_close close_slot drop_ref
close_keeps_the_other = refl

vfs_close-IsCounted_example :
    (table' : Table) × ((vfs_close (pos 2) (some one_table) one_open).1 ≡ some table')
    × IsCounted no_others table' (vfs_close (pos 2) (some one_table) one_open).2
vfs_close-IsCounted_example =
    vfs_close-IsCounted no_others (pos 2) one_table one_open length-one_table one_open-IsCounted

vfs_open-IsCounted_example :
    (table' : Table) × ((vfs_open (some (4, 100)) 0 9 (some one_table) one_open).1 ≡ some table')
    × IsCounted no_others table' (vfs_open (some (4, 100)) 0 9 (some one_table) one_open).2
vfs_open-IsCounted_example =
    vfs_open-IsCounted no_others (some (4, 100)) 0 9 one_table one_open (λ ne. refl)
      one_open-IsCounted

one_table_small : (p : ℕ) → p ≢ 0 → 2 * occurrences p one_table + no_others p < 2 ^ 32
one_table_small p nz = ground (arith, held_by p nz)
