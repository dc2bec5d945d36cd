-- ===== src/Vfs/Inherit.antt =====
-- task_inherit_fds of core/tasks/tasks.c: the counts after a table has been copied.
use bomboclaat_os.Base.{
  ℕ, ◌+◌, ◌*◌, ◌^◌, ◌<◌, ◌≡◌, refl, ◌≢◌, inl, inr, some, [], ◌∷◌, ◌==◌, if◌then◌else◌, Bool-cases,
  arith,
}
use bomboclaat_os.Vfs.{File, Files, Table, add_ref, inherit_fds}
use bomboclaat_os.Vfs.Table.{occurrences}
use bomboclaat_os.Vfs.Refs.{refs, IsCounted}

refs-add_ref :
    (p q : ℕ) (files : Files)
    → 0 < refs files p
    → refs files p + 1 < 2 ^ 32
    → refs (add_ref p files) q ≡ refs files q + (if p == q then 1 else 0)
unfolding add_ref
refs-add_ref p q files l b = ground arith

add_ref-live :
    (p : ℕ) (files : Files)
    → refs files p + 1 < 2 ^ 32
    → ((q : ℕ) → (f : File) → files q ≡ some f → 0 < f.ref_count)
    → (q : ℕ) → (f : File) → add_ref p files q ≡ some f
    → 0 < f.ref_count
unfolding add_ref
add_ref-live p files b live q f h = ground (arith, live q f)

-- What the loop does to every count, and that no object is freed.
record Inherited (ps : Table) (files left : Files) : Type 0 where
  counts : (q : ℕ) → q ≢ 0 → refs left q ≡ refs files q + occurrences q ps
  null : refs left 0 ≡ refs files 0
  live : (q : ℕ) → (f : File) → left q ≡ some f → 0 < f.ref_count

inherit_fds-Inherited :
    (ps : Table) (files : Files)
    → ((q : ℕ) → (f : File) → files q ≡ some f → 0 < f.ref_count)
    → ((q : ℕ) → q ≢ 0 → 0 < occurrences q ps → 0 < refs files q)
    → ((q : ℕ) → q ≢ 0 → refs files q + occurrences q ps < 2 ^ 32)
    → Inherited ps files (inherit_fds ps files)
unfolding inherit_fds
inherit_fds-Inherited [] files live held small = record {
  counts = λ q nz. omega arith;
  null = refl;
  live = live;
}
inherit_fds-Inherited (p ∷ ps) files live held small = elim (Bool-cases (p == 0)) [
  | inl null ↦
      let rest =
        inherit_fds-Inherited ps files live (λ q nz h. held q nz (omega arith))
          (λ q nz. omega (arith, small q nz)) in
      rw null (record {
        counts = λ q nz. ground (arith, rest.counts q nz);
        null = rest.null;
        live = rest.live;
      })
  | inr held_slot ↦
      let ne : p ≢ 0 = ground arith in
      let l : 0 < refs files p = held p ne (ground arith) in
      let b : refs files p + 1 < 2 ^ 32 = ground (arith, small p ne) in
      let rest =
        inherit_fds-Inherited ps (add_ref p files) (add_ref-live p files b live)
          (λ q nz h. ground (arith, refs-add_ref p q files l b, held q nz))
          (λ q nz. ground (arith, refs-add_ref p q files l b, small q nz)) in
      rw held_slot (record {
        counts = λ q nz. ground (arith, rest.counts q nz, refs-add_ref p q files l b);
        null = ground (arith, rest.null, refs-add_ref p 0 files l b);
        live = rest.live;
      })
]

-- When fork or task creation copies a table, each open file comes to count the descriptors of
-- both tables, as long as the counts fit their 32 bits.
pub inherit_fds-IsCounted :
    (outside : ℕ → ℕ) (table : Table) (files : Files)
    → IsCounted outside table files
    → ((p : ℕ) → p ≢ 0 → 2 * occurrences p table + outside p < 2 ^ 32)
    → IsCounted (λ p. outside p + occurrences p table) table (inherit_fds table files)
inherit_fds-IsCounted outside table files v small =
    let done =
      inherit_fds-Inherited table files v.live (λ q nz h. omega (arith, v.counts q nz))
        (λ q nz. omega (arith, v.counts q nz, small q nz)) in
    record {
      counts = λ q nz. omega (arith, done.counts q nz, v.counts q nz);
      live = done.live;
      bounded = λ q. elim (Bool-cases (q == 0)) [
        | inl null ↦
            let z : 0 ≡ q = ground arith in rw (← z) (omega (arith, done.null, v.bounded 0))
        | inr ne ↦
            omega (
              arith,
              done.counts q (ground arith),
              v.counts q (ground arith),
              small q (ground arith),
            )
      ];
    }
