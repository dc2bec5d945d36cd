-- ===== src/Kprintf/Digits.antt =====
-- core/kprintf.c: print_dec and print_hex.
use bomboclaat_os.Base.{
  ℕ, zero, suc, ◌+◌, ◌-◌, ◌*◌, ◌/◌, ◌%◌, ◌^◌, Bool, ◌&&◌, Option, none, some, List, [], ◌∷◌, ◌++◌,
  ◌==◌, ltb, leb, if◌then◌else◌, replicate, get_or,
}

-- The test of both loops that count digits; `last` is the greatest number of so many digits.
abbrev pub more_digits : (value last : ℕ) → Bool
more_digits value last = ltb last value && ltb last (2 ^ 32 - 1)

-- The loop that counts the digits in base `base`; `none` if the rounds are used up.
unfoldable pub count_digits : (rounds base value n_width last : ℕ) → Option ℕ
count_digits zero base value n_width last = if more_digits value last then none else some n_width
count_digits (suc rounds) base value n_width last =
    let rest =
      count_digits rounds base value (n_width + 1) ((last * base % 2 ^ 32 + (base - 1)) % 2 ^ 32) in
    if more_digits value last then rest else some n_width

-- The loop from the last digit to the first.
unfoldable pub dec_digits : ℕ → ℕ → List ℕ
dec_digits zero value = []
dec_digits (suc n) value = dec_digits n (value / 10) ++ ((value % 10 + b'0') ∷ [])

unfoldable pub print_dec : (value width pad_char : ℕ) → Option (List ℕ)
unfolding count_digits dec_digits
print_dec value width pad_char = elim (count_digits 31 10 value 1 9) [
  | none ↦ none
  | some n ↦ some (replicate (width - n) pad_char ++ dec_digits n value)
]

-- "0123456789ABCDEF"
abbrev pub hex_alphabet : List ℕ
hex_alphabet =
    b'0' ∷ b'1' ∷ b'2' ∷ b'3' ∷ b'4' ∷ b'5' ∷ b'6' ∷ b'7' ∷ b'8' ∷ b'9' ∷ b'A' ∷ b'B' ∷ b'C' ∷ b'D'
    ∷ b'E' ∷ b'F' ∷ []

unfoldable pub hex_digits : ℕ → ℕ → List ℕ
hex_digits zero value = []
hex_digits (suc n) value = get_or hex_alphabet (value / 2 ^ (4 * n) % 16) 0 ∷ hex_digits n value

-- The zeros in front. The width is an `int`, negative from 2^31 on.
abbrev pub hex_pads : (width n : ℕ) → ℕ
hex_pads width n = let i = if width == 0 then 8 else width in if leb (2 ^ 31) i then 0 else i - n

unfoldable pub print_hex : (value width : ℕ) → Option (List ℕ)
unfolding count_digits hex_digits
print_hex value width = elim (count_digits 7 16 value 1 15) [
  | none ↦ none
  | some n ↦ some (replicate (hex_pads width n) b'0' ++ hex_digits n value)
]
