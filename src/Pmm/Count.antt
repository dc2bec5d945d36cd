-- ===== src/Pmm/Count.antt =====
-- How many frames below a bound a predicate holds of: what `used_frames` is meant to be.
use bomboclaat_os.Base.{
  ℕ, zero, suc, ◌+◌, ◌≤◌, ◌<◌, ◌≡◌, refl, Bool, true, false, not, ◌&&◌, ◌||◌, ◌==◌, if◌then◌else◌,
  Bool-cases, arith, inl, inr,
}

abbrev pub count : ℕ → (ℕ → Bool) → ℕ
count zero P = 0
count (suc n) P = (if P n then 1 else 0) + count n P

pub count-le : (n : ℕ) (P : ℕ → Bool) → count n P ≤ n
count-le zero P = omega arith
count-le (suc n) P = ground (arith, count-le n P)

pub count_congr : (n : ℕ) (P Q : ℕ → Bool) → ((g : ℕ) → g < n → Q g ≡ P g) → count n Q ≡ count n P
count_congr zero P Q same = refl
count_congr (suc n) P Q same =
    ground (arith, same n (omega arith), count_congr n P Q (λ g h. same g (omega arith)))

-- One more frame.
pub count_insert :
    (n f : ℕ) (P Q : ℕ → Bool)
    → f < n
    → P f ≡ false
    → ((g : ℕ) → Q g ≡ ((f == g) || P g))
    → count n Q ≡ count n P + 1
count_insert zero f P Q lt out law = absurd (omega arith)
count_insert (suc n) f P Q lt out law = elim (Bool-cases (f == n)) [
  | inl e ↦ ground (arith, law n, count_congr n P Q (λ g h. ground (arith, law g)))
  | inr ne ↦ ground (arith, law n, count_insert n f P Q (ground arith) out law)
]

-- One frame less.
pub count_erase :
    (n f : ℕ) (P Q : ℕ → Bool)
    → f < n
    → P f ≡ true
    → ((g : ℕ) → Q g ≡ (not (f == g) && P g))
    → count n P ≡ count n Q + 1
count_erase zero f P Q lt held law = absurd (omega arith)
count_erase (suc n) f P Q lt held law = elim (Bool-cases (f == n)) [
  | inl e ↦ ground (arith, law n, count_congr n P Q (λ g h. ground (arith, law g)))
  | inr ne ↦ ground (arith, law n, count_erase n f P Q (ground arith) held law)
]

pub count_all : (n : ℕ) (P : ℕ → Bool) → ((g : ℕ) → g < n → P g ≡ true) → count n P ≡ n
count_all zero P all = refl
count_all (suc n) P all =
    ground (arith, all n (omega arith), count_all n P (λ g h. all g (omega arith)))
