-- ===== src/Base/Or.antt =====
-- The `|` of C on words: quotients and remainders by powers of two.
use Prim.Native.Nat.{
  ℕ, zero, suc, ◌+◌, ◌*◌, ◌/◌, ◌%◌, ◌^◌, ◌≤◌, ◌<◌, max, bit_or, digits, bit_or-bitwise,
}
use mathlib.Core.Path.{◌≡◌, refl, sym, ap, ap₂, ◌∙◌}
use native.Mathlib.Omega.{arith}

-- `|` with `rounds` digits of the left number to go.
abbrev or_rounds : ℕ → ℕ → ℕ → ℕ
or_rounds rounds x y = digits (λ rest. rest) max rounds x y

or_rounds_enough : (r : ℕ) (x y r' : ℕ) → x ≤ r → x ≤ r' → or_rounds r x y ≡ or_rounds r' x y
or_rounds_enough zero zero y zero h h' = refl
or_rounds_enough zero zero y (suc r') h h' = refl
or_rounds_enough zero (suc x) y r' h h' = absurd (omega arith)
or_rounds_enough (suc r) zero y zero h h' = refl
or_rounds_enough (suc r) zero y (suc r') h h' = refl
or_rounds_enough (suc r) (suc x) y zero h h' = absurd (omega arith)
or_rounds_enough (suc r) (suc x) y (suc r') h h' =
    ap (λ (half : ℕ). half * 2 + max (suc x % 2) (y % 2))
      (or_rounds_enough r (suc x / 2) (y / 2) r' (omega arith) (omega arith))

pub zero-bit_or : (y : ℕ) → bit_or 0 y ≡ y
zero-bit_or y = bit_or-bitwise 0 y

pub bit_or_halves : (x y : ℕ) → bit_or x y ≡ bit_or (x / 2) (y / 2) * 2 + max (x % 2) (y % 2)
bit_or_halves zero y = omega (arith, zero-bit_or y, zero-bit_or (y / 2))
bit_or_halves (suc x) y =
    bit_or-bitwise (suc x) y
    ∙ ap (λ (half : ℕ). half * 2 + max (suc x % 2) (y % 2))
        (or_rounds_enough x (suc x / 2) (y / 2) (suc x / 2) (omega arith) (omega arith)
          ∙ sym (bit_or-bitwise (suc x / 2) (y / 2)))

pub bit_or-half : (x y : ℕ) → bit_or x y / 2 ≡ bit_or (x / 2) (y / 2)
bit_or-half x y = omega (arith, bit_or_halves x y)

pub bit_or-even : (x y : ℕ) → bit_or x y % 2 ≡ max (x % 2) (y % 2)
bit_or-even x y = omega (arith, bit_or_halves x y)

bit_or-zero_rounds : (r x : ℕ) → x ≤ r → bit_or x 0 ≡ x
bit_or-zero_rounds r zero h = zero-bit_or 0
bit_or-zero_rounds zero (suc x) h = absurd (omega arith)
bit_or-zero_rounds (suc r) (suc x) h =
    omega (arith, bit_or_halves (suc x) 0, bit_or-zero_rounds r (suc x / 2) (omega arith))

pub bit_or-zero : (x : ℕ) → bit_or x 0 ≡ x
bit_or-zero x = bit_or-zero_rounds x x (omega arith)

-- `x >> k`, one place at a time.
abbrev shifted : ℕ → ℕ → ℕ
shifted zero x = x
shifted (suc k) x = shifted k (x / 2)

shifted-bit_or : (k x y : ℕ) → shifted k (bit_or x y) ≡ bit_or (shifted k x) (shifted k y)
shifted-bit_or zero x y = refl
shifted-bit_or (suc k) x y = ap (shifted k) (bit_or-half x y) ∙ shifted-bit_or k (x / 2) (y / 2)

shifted_7 : (x : ℕ) → shifted 7 x ≡ x / 128
shifted_7 x = omega arith

shifted_12 : (x : ℕ) → shifted 12 x ≡ x / 4096
shifted_12 x = omega arith

-- Bit 7 of the result.
pub bit_or-bit_7 : (x y : ℕ) → bit_or x y / 128 % 2 ≡ max (x / 128 % 2) (y / 128 % 2)
bit_or-bit_7 x y =
    ap (λ (q : ℕ). q % 2)
      (sym (shifted_7 (bit_or x y)) ∙ shifted-bit_or 7 x y ∙ ap₂ bit_or (shifted_7 x) (shifted_7 y))
    ∙ bit_or-even (x / 128) (y / 128)

-- Flags in the low 12 bits leave the page number alone.
pub bit_or-page : (x y : ℕ) → y < 4096 → bit_or x y / 4096 ≡ x / 4096
bit_or-page x y h =
    sym (shifted_12 (bit_or x y))
    ∙ shifted-bit_or 12 x y
    ∙ ap₂ bit_or (shifted_12 x) (shifted_12 y ∙ (let z : y / 4096 ≡ 0 = omega arith in z))
    ∙ bit_or-zero (x / 4096)

-- The low `k` bits, one at a time.
abbrev low_bits : ℕ → ℕ → ℕ
low_bits zero x = 0
low_bits (suc k) x = low_bits k (x / 2) * 2 + x % 2

low_bits-bit_or : (k x y : ℕ) → low_bits k y ≡ 0 → low_bits k (bit_or x y) ≡ low_bits k x
low_bits-bit_or zero x y h = refl
low_bits-bit_or (suc k) x y h =
    let rest = low_bits-bit_or k (x / 2) (y / 2) (omega arith) in
    let half = ap (low_bits k) (bit_or-half x y) in omega (arith, rest, half, bit_or-even x y)

low_bits_10 : (x : ℕ) → low_bits 10 x ≡ x % 1024
low_bits_10 x = omega arith

shifted_10 : (x : ℕ) → shifted 10 x ≡ x / 1024
shifted_10 x = omega arith

low_10 : (x y : ℕ) → y % 1024 ≡ 0 → bit_or x y % 1024 ≡ x % 1024
low_10 x y h =
    sym (low_bits_10 (bit_or x y)) ∙ low_bits-bit_or 10 x y (low_bits_10 y ∙ h) ∙ low_bits_10 x

high_10 : (x y : ℕ) → bit_or x y / 1024 ≡ bit_or (x / 1024) (y / 1024)
high_10 x y =
    sym (shifted_10 (bit_or x y)) ∙ shifted-bit_or 10 x y ∙ ap₂ bit_or (shifted_10 x) (shifted_10 y)

low_20 : (x y : ℕ) → y % 1048576 ≡ 0 → bit_or x y % 1048576 ≡ x % 1048576
low_20 x y h =
    omega (arith, low_10 x y (omega arith), high_10 x y, low_10 (x / 1024) (y / 1024) (omega arith))

high_20 : (x y : ℕ) → bit_or x y / 1048576 ≡ bit_or (x / 1048576) (y / 1048576)
high_20 x y =
    let a : bit_or x y / 1048576 ≡ bit_or x y / 1024 / 1024 = omega arith in
    let b : x / 1048576 ≡ x / 1024 / 1024 = omega arith in
    let c : y / 1048576 ≡ y / 1024 / 1024 = omega arith in
    a
    ∙ ap (λ (q : ℕ). q / 1024) (high_10 x y)
    ∙ high_10 (x / 1024) (y / 1024)
    ∙ sym (ap₂ bit_or b c)

-- Bits 12 to 51, where the second number has none there.
pub bit_or-frame :
    (x y : ℕ) → y / 4096 % 2 ^ 40 ≡ 0 → bit_or x y / 4096 % 2 ^ 40 ≡ x / 4096 % 2 ^ 40
bit_or-frame x y h =
    let page : bit_or x y / 4096 ≡ bit_or (x / 4096) (y / 4096) =
      sym (shifted_12 (bit_or x y))
      ∙ shifted-bit_or 12 x y
      ∙ ap₂ bit_or (shifted_12 x) (shifted_12 y) in
    let x' = x / 4096 in
    let y' = y / 4096 in
    let low = low_20 x' y' (omega arith) in
    let mid = low_20 (x' / 1048576) (y' / 1048576) (omega arith) in
    omega (arith, page, low, mid, high_20 x' y')
