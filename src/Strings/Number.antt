-- ===== src/Strings/Number.antt =====
-- lib/string.c: itoa. A remainder of a negative number is not positive, as in C.
use bomboclaat_os.Base.{
  ℕ, zero, suc, ◌+◌, ◌-◌, ◌/◌, ◌%◌, ◌^◌, Bool, true, false, Option, some, List, [], ◌∷◌, ◌++◌, ◌==◌,
  ltb, leb, if◌then◌else◌, length,
}
use bomboclaat_os.Base.Int.{ℤ, pos, negsuc}
use bomboclaat_os.Strings.{to_upper_case}
use bomboclaat_os.Strings.Edit.{reverse}

-- `(rem > 9) ? (rem - 10) + 'a' : rem + '0'`, for a remainder of the sign given.
unfoldable pub itoa_char : Bool → ℕ → ℕ
itoa_char true rem = b'0' - rem
itoa_char false rem = if ltb 9 rem then rem - 10 + b'a' else rem + b'0'

-- The loop over the digits, lowest first; a number of 64 bits has 64 digits at most.
unfoldable pub itoa_digits : ℕ → Bool → ℕ → ℕ → List ℕ
itoa_digits zero negative base num = []
itoa_digits (suc fuel) negative base num =
    let rest = itoa_digits fuel negative base (num / base) in
    if num == 0 then [] else itoa_char negative (num % base) ∷ rest

-- The end of itoa on the bytes that the loop wrote.
unfoldable pub itoa_finish : List ℕ → Option (List ℕ)
itoa_finish digits = to_upper_case (reverse (digits ++ (0 ∷ [])) (length digits))

-- `-num` of the lowest 64-bit number is that number again.
unfoldable pub itoa : ℤ → ℕ → Option (List ℕ)
unfolding itoa_finish itoa_digits
itoa (pos zero) base = some (b'0' ∷ 0 ∷ [])
itoa (pos (suc n)) base = itoa_finish (itoa_digits 64 false base (suc n))
itoa (negsuc n) base =
    if base == 10
    then itoa_finish (itoa_digits 64 (leb (2 ^ 63) (n + 1)) base (n + 1) ++ (b'-' ∷ []))
    else itoa_finish (itoa_digits 64 true base (n + 1))
