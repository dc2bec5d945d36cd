-- ===== src/Kprintf/Counted.antt =====
-- core/kprintf.c: the loops that count digits end, for every value of 32 bits.
use bomboclaat_os.Base.{
  ℕ, zero, suc, ◌+◌, ◌-◌, ◌*◌, ◌%◌, ◌^◌, ◌≤◌, ◌<◌, ◌≡◌, refl, ap, ◌∙◌, false, Option, none, some,
  Bool-cases, inl, inr, arith,
}
use bomboclaat_os.Kprintf.Digits.{more_digits, count_digits}

-- `base ^ n`
abbrev pub power : ℕ → ℕ → ℕ
power base zero = 1
power base (suc n) = base * power base n

-- The value has at most so many digits.
abbrev pub Counted : (base value n_width rounds : ℕ) → Option ℕ → Type 0
Counted base value n_width rounds = elim [
  | none ↦ ⊥
  | some n ↦ (value < power base n) × (n_width ≤ n) × (n ≤ n_width + rounds)
]

-- What the numbers of digits come to in a base, up to 2^32.
pub record IsBase (base most : ℕ) : Type 0 where
  pub positive : (n : ℕ) → 0 < power base n
  pub step :
      (n last : ℕ)
      → last ≡ (power base n - 1) % 2 ^ 32
      → (last * base % 2 ^ 32 + (base - 1)) % 2 ^ 32 ≡ (power base (suc n) - 1) % 2 ^ 32
  pub end : (power base most - 1) % 2 ^ 32 ≡ 2 ^ 32 - 1

one_more :
    (base value n_width rounds : ℕ) (o : Option ℕ)
    → Counted base value (suc n_width) rounds o
    → Counted base value n_width (suc rounds) o
one_more base value n_width rounds none c = c
one_more base value n_width rounds (some n) (small, lo, hi) = (small, omega arith, omega arith)

pub count_digits-Counted :
    (base most rounds value n_width last : ℕ)
    → IsBase base most
    → value < 2 ^ 32
    → n_width + rounds ≡ most
    → last ≡ (power base n_width - 1) % 2 ^ 32
    → Counted base value n_width rounds (count_digits rounds base value n_width last)
unfolding count_digits
count_digits-Counted base most zero value n_width last b lt total at =
    let end : n_width ≡ most = omega arith in
    let full : last ≡ 2 ^ 32 - 1 = at ∙ ap (λ n. (power base n - 1) % 2 ^ 32) end ∙ b.end in
    let some_digits = b.positive n_width in
    let stop : more_digits value last ≡ false = ground arith in
    rw stop (omega arith, omega arith, omega arith)
count_digits-Counted base most (suc rounds) value n_width last b lt total at =
    let next_last = (last * base % 2 ^ 32 + (base - 1)) % 2 ^ 32 in
    let rest : Counted base value (suc n_width) rounds
        (count_digits rounds base value (suc n_width) next_last) =
      count_digits-Counted base most rounds value (suc n_width) next_last b lt (omega arith)
        (b.step n_width last at) in
    let plus : n_width + 1 ≡ suc n_width = omega arith in
    let some_digits = b.positive n_width in
    elim (Bool-cases (more_digits value last)) [
      | inl more ↦
          rw (more, count_digits)
            (rw plus (
              one_more base value n_width rounds
                (count_digits rounds base value (suc n_width) next_last) rest))
      | inr stop ↦
          let enough : value ≤ last = ground arith in
          rw (stop, count_digits) (omega arith, omega arith, omega arith)
    ]

pub ten : IsBase 10 32
ten = record {
  positive = positive;
  step = λ n last at. let some_digits = positive n in omega arith;
  end = refl;
}
  where
    positive : (n : ℕ) → 0 < power 10 n
    positive zero = omega arith
    positive (suc n) = let before = positive n in omega arith

pub sixteen : IsBase 16 8
sixteen = record {
  positive = positive;
  step = λ n last at. let some_digits = positive n in omega arith;
  end = refl;
}
  where
    positive : (n : ℕ) → 0 < power 16 n
    positive zero = omega arith
    positive (suc n) = let before = positive n in omega arith
