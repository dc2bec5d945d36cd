-- ===== src/Initramfs/Hex.antt =====
-- core/initramfs.c and core/kprintf.c: parse_hex of what print_hex writes.
use bomboclaat_os.Base.{
  append-nil, subst, ℕ, zero, suc, ◌+◌, ◌-◌, ◌*◌, ◌/◌, ◌%◌, ◌^◌, ◌≤◌, ◌<◌, ◌≡◌, ◌⊎◌, inl, inr, refl,
  ap, ◌∙◌, subst, true, Option, none, some, List, [], ◌∷◌, ◌++◌, ◌==◌, ==_iff, replicate, get_or,
  arith,
}
use native.Mathlib.Nat.{pow-suc, div-lt_iff_lt-mul}
use bomboclaat_os.Base.Bits.{check_below, check_below_sound}
use bomboclaat_os.Kprintf.{hex_alphabet, hex_digits, hex_pads, print_hex, count_digits}
use bomboclaat_os.Kprintf.Counted.{power, Counted, count_digits-Counted, sixteen}
use bomboclaat_os.Initramfs.{hex_value, parse_hex_from, parse_hex}

alphabet_table : check_below 16 (λ d. hex_value (get_or hex_alphabet d 0) == d) ≡ true
unfolding check_below hex_value
alphabet_table = refl

hex_value_alphabet : (d : ℕ) → d < 16 → hex_value (get_or hex_alphabet d 0) ≡ d
hex_value_alphabet d small =
    (==_iff (hex_value (get_or hex_alphabet d 0)) d).0
      (check_below_sound 16 (λ k. hex_value (get_or hex_alphabet k 0) == k) d alphabet_table small)

-- One round of parse_hex adds a digit to the higher part `high` of the value.
parse_digit :
    (rounds d high result : ℕ) (cs : List ℕ)
    → d < 16
    → high < 2 ^ 28
    → result ≡ high * 16 + d
    → parse_hex_from (suc rounds) (get_or hex_alphabet d 0 ∷ cs) high
      ≡ parse_hex_from rounds cs result
unfolding parse_hex_from
parse_digit rounds d high result cs small fits at =
    let digit = hex_value_alphabet d small in
    ap (parse_hex_from rounds cs) (ap (λ k. high * 16 % 2 ^ 32 + k) digit ∙ omega arith)

pub parse_hex-hex_digits :
    (value : ℕ) (cs : List ℕ) → value < 2 ^ 32 → parse_hex (hex_digits 8 value ++ cs) ≡ some value
unfolding parse_hex hex_digits parse_hex_from
parse_hex-hex_digits value cs lt =
    parse_digit 7 (value / 2 ^ 28 % 16) 0 (value / 2 ^ 28) (hex_digits 7 value ++ cs) (omega arith)
      (omega arith) (omega arith)
    ∙ parse_digit 6 (value / 2 ^ 24 % 16) (value / 2 ^ 28) (value / 2 ^ 24)
        (hex_digits 6 value ++ cs) (omega arith) (omega arith) (omega arith)
    ∙ parse_digit 5 (value / 2 ^ 20 % 16) (value / 2 ^ 24) (value / 2 ^ 20)
        (hex_digits 5 value ++ cs) (omega arith) (omega arith) (omega arith)
    ∙ parse_digit 4 (value / 2 ^ 16 % 16) (value / 2 ^ 20) (value / 2 ^ 16)
        (hex_digits 4 value ++ cs) (omega arith) (omega arith) (omega arith)
    ∙ parse_digit 3 (value / 2 ^ 12 % 16) (value / 2 ^ 16) (value / 2 ^ 12)
        (hex_digits 3 value ++ cs) (omega arith) (omega arith) (omega arith)
    ∙ parse_digit 2 (value / 2 ^ 8 % 16) (value / 2 ^ 12) (value / 2 ^ 8) (hex_digits 2 value ++ cs)
        (omega arith) (omega arith) (omega arith)
    ∙ parse_digit 1 (value / 2 ^ 4 % 16) (value / 2 ^ 8) (value / 2 ^ 4) (hex_digits 1 value ++ cs)
        (omega arith) (omega arith) (omega arith)
    ∙ parse_digit 0 (value / 2 ^ 0 % 16) (value / 2 ^ 4) value cs (omega arith) (omega arith)
        (omega arith)
    ∙ refl

power_of_two : (n : ℕ) → power 16 n ≡ 2 ^ (4 * n)
power_of_two zero = refl
power_of_two (suc n) =
    let before = power_of_two n in
    let four : 4 * suc n ≡ suc (suc (suc (suc (4 * n)))) = omega arith in
    let once = pow-suc 2 (4 * n) in
    let twice = pow-suc 2 (suc (4 * n)) in
    let thrice = pow-suc 2 (suc (suc (4 * n))) in
    let last = pow-suc 2 (suc (suc (suc (4 * n)))) in rw four (omega arith)

-- A digit above those of the value is a zero.
zero_in_front :
    (n value : ℕ) → value < power 16 n → b'0' ∷ hex_digits n value ≡ hex_digits (suc n) value
unfolding hex_digits
zero_in_front n value lt =
    let p = 2 ^ (4 * n) in
    let below : value < p = subst (λ q. value < q) (power_of_two n) lt in
    let quotient : value / p < 1 = (div-lt_iff_lt-mul (omega arith)).1 (omega arith) in
    let none_there : value / p % 16 ≡ 0 = omega arith in rw none_there refl

zeros_behind :
    (k : ℕ) (cs : List ℕ) → replicate (suc k) b'0' ++ cs ≡ replicate k b'0' ++ (b'0' ∷ cs)
zeros_behind zero cs = refl
zeros_behind (suc k) cs = ap (λ l. b'0' ∷ l) (zeros_behind k cs)

zeros-hex_digits :
    (k n value : ℕ)
    → k + n ≡ 8
    → value < power 16 n
    → replicate k b'0' ++ hex_digits n value ≡ hex_digits 8 value
zeros-hex_digits zero n value e lt =
    let eight : n ≡ 8 = omega arith in ap (λ m. hex_digits m value) eight
zeros-hex_digits (suc k) n value e lt =
    zeros_behind k (hex_digits n value)
    ∙ ap (λ l. replicate k b'0' ++ l) (zero_in_front n value lt)
    ∙ zeros-hex_digits k (suc n) value (omega arith) (omega arith)

abbrev pub ParsesBack : ℕ → Option (List ℕ) → Type 0
ParsesBack value = elim [ none ↦ ⊥ | some out ↦ parse_hex out ≡ some value ]

-- print_hex ends for each value of 32 bits, and with a width of 8 or none at all it writes a text of
-- which parse_hex gives the value back.
pub parse_hex-print_hex :
    (value width : ℕ)
    → value < 2 ^ 32
    → (width ≡ 0) ⊎ (width ≡ 8)
    → ParsesBack value (print_hex value width)
unfolding print_hex
parse_hex-print_hex value width lt wide =
    printed (count_digits 7 16 value 1 15)
      (count_digits-Counted 16 8 7 value 1 15 sixteen lt (omega arith) refl)
  where
    pads : (n : ℕ) → n ≤ 8 → (width ≡ 0) ⊎ (width ≡ 8) → hex_pads width n ≡ 8 - n
    pads n le (inl e) = rw e refl
    pads n le (inr e) = rw e refl

    printed :
        (o : Option ℕ)
        → Counted 16 value 1 7 o
        → ParsesBack value (elim o [
          | none ↦ none
          | some n ↦ some (replicate (hex_pads width n) b'0' ++ hex_digits n value)
        ])
    printed none c = c
    printed (some n) (small, lo, hi) = rw (pads n (omega arith) wide) (
        rw (zeros-hex_digits (8 - n) n value (omega arith) small) (
          subst (λ l. parse_hex l ≡ some value) (append-nil (hex_digits 8 value))
            (parse_hex-hex_digits value [] lt)))
