-- ===== src/Vfs/Table.antt =====
-- How often a pointer stands in a descriptor table.
use bomboclaat_os.Base.{
  ℕ, zero, suc, ◌+◌, ◌<◌, ◌≡◌, refl, ◌≢◌, some, [], ◌∷◌, ◌==◌, if◌then◌else◌, length, get_or, set,
  Bool-cases, inl, inr, arith,
}
use bomboclaat_os.Vfs.{Table, free_slot}

abbrev pub occurrences : ℕ → Table → ℕ
occurrences p [] = 0
occurrences p (q ∷ qs) = (if q == p then 1 else 0) + occurrences p qs

pub occurrences-set :
    (p : ℕ) (table : Table) (i v : ℕ)
    → i < length table
    → occurrences p (set table i v) + (if get_or table i 0 == p then 1 else 0)
      ≡ occurrences p table + (if v == p then 1 else 0)
occurrences-set p [] i v h = absurd (omega arith)
occurrences-set p (q ∷ qs) zero v h = omega arith
occurrences-set p (q ∷ qs) (suc i) v h = omega (arith, occurrences-set p qs i v (omega arith))

-- A pointer that is read from a slot stands in the table.
pub occurrences_pos :
    (table : Table) (i : ℕ) → get_or table i 0 ≢ 0 → 0 < occurrences (get_or table i 0) table
occurrences_pos [] i h = absurd (h refl)
occurrences_pos (q ∷ qs) zero h = ground arith
occurrences_pos (q ∷ qs) (suc i) h = omega (arith, occurrences_pos qs i h)

-- The slot that is found is the lowest null one.
pub free_slot-lowest :
    (table : Table) (from : ℕ) {i : ℕ}
    → free_slot from table ≡ some i
    → (k : ℕ) × (i ≡ from + k)
      × (k < length table)
      × (get_or table k 0 ≡ 0)
      × ((j : ℕ) → j < k → get_or table j 0 ≢ 0)
unfolding free_slot
free_slot-lowest [] from h = cc
free_slot-lowest (p ∷ ps) from {i} h = elim (Bool-cases (p == 0)) [
  | inl null ↦ (0, ground arith, omega arith, ground arith, λ j lt. absurd (omega arith))
  | inr held ↦
      let (k, at, lt, empty, before) = free_slot-lowest ps (from + 1) {i = i} (rw held at h) in
      (
        suc k,
        omega arith,
        omega arith,
        empty,
        λ j. elim j as (λ j. j < suc k → get_or (p ∷ ps) j 0 ≢ 0) [
          | zero ↦ λ lt'. ground arith
          | suc j ↦ λ lt'. before j (omega arith)
        ],
      )
]

pub occurrences-none :
    (table : Table) (p : ℕ)
    → p ≢ 0
    → ((j : ℕ) → j < length table → get_or table j 0 ≡ 0)
    → occurrences p table ≡ 0
occurrences-none [] p nz all = refl
occurrences-none (q ∷ qs) p nz all =
    ground
      (arith, all 0 (omega arith), occurrences-none qs p nz (λ j lt. all (suc j) (omega arith)))
