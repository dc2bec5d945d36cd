-- ===== src/Base/Bits.antt =====
-- Single bits of a byte: what `|= 1 << k` and `&= ~(1 << k)` do to each of them.
use Prim.Native.Nat.{ℕ, zero, suc, ◌-◌, ◌%◌, ◌^◌, ◌<◌, bit_and, bit_or}
use mathlib.Core.Path.{◌≡◌, refl}
use mathlib.Core.Bool.{Bool, true, false, ◌&&◌, ◌||◌, not}
use native.Mathlib.Omega.{arith}
use bomboclaat_os.Base.Tests.{◌==◌}

-- The test holds of each number under the bound, as running it shows.
unfoldable pub check_below : ℕ → (ℕ → Bool) → Bool
check_below zero test = true
check_below (suc bound) test = check_below bound test && test bound

pub check_below_sound :
    (bound : ℕ) (test : ℕ → Bool) (k : ℕ)
    → check_below bound test ≡ true
    → k < bound
    → test k ≡ true
unfolding check_below
check_below_sound zero test k h under = absurd (omega arith)
check_below_sound (suc bound) test k h under =
    let before = check_below_sound bound test k in ground (arith, before)

beq : Bool → Bool → Bool
beq true b = b
beq false b = not b

eq_of_beq : (a b : Bool) → beq a b ≡ true → a ≡ b
unfolding beq
eq_of_beq true true h = refl
eq_of_beq true false h = ground arith
eq_of_beq false true h = ground arith
eq_of_beq false false h = refl

-- Bit `k` of the byte `b`.
unfoldable pub bit_at : ℕ → ℕ → Bool
bit_at b k = not (bit_and b (2 ^ k) == 0)

set_bit_at_table :
    check_below 256 (λ b.
      check_below 8 (λ k.
        check_below 8 (λ j. beq (bit_at (bit_or b (2 ^ k) % 256) j) ((k == j) || bit_at b j))))
    ≡ true
unfolding check_below beq bit_at
set_bit_at_table = refl

-- `b |= 1 << k` sets bit k and no other.
pub bit_at-bit_or :
    (b k j : ℕ)
    → b < 256
    → k < 8
    → j < 8
    → bit_at (bit_or b (2 ^ k) % 256) j ≡ ((k == j) || bit_at b j)
bit_at-bit_or b k j hb hk hj = eq_of_beq _ _ (
    check_below_sound 8 _ j
      (check_below_sound 8 _ k (check_below_sound 256 _ b set_bit_at_table hb) hk) hj)

clear_bit_at_table :
    check_below 256 (λ b. check_below 8 (λ k.
      check_below 8
        (λ j. beq (bit_at (bit_and b (2 ^ 64 - 1 - 2 ^ k) % 256) j) (not (k == j) && bit_at b j))))
    ≡ true
unfolding check_below beq bit_at
clear_bit_at_table = refl

-- `b &= ~(1 << k)` clears bit k and no other.
pub bit_at-bit_and :
    (b k j : ℕ)
    → b < 256
    → k < 8
    → j < 8
    → bit_at (bit_and b (2 ^ 64 - 1 - 2 ^ k) % 256) j ≡ (not (k == j) && bit_at b j)
bit_at-bit_and b k j hb hk hj = eq_of_beq _ _ (
    check_below_sound 8 _ j
      (check_below_sound 8 _ k (check_below_sound 256 _ b clear_bit_at_table hb) hk) hj)

ones_table : check_below 8 (λ k. bit_at 255 k) ≡ true
unfolding check_below bit_at
ones_table = refl

pub bit_at_ones : (k : ℕ) → k < 8 → bit_at 255 k ≡ true
bit_at_ones k h = check_below_sound 8 _ k ones_table h
