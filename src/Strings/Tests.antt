-- ===== src/Strings/Tests.antt =====
-- lib/string.c: short strings.
use bomboclaat_os.Base.{ℕ, ◌≡◌, refl, none, some, List, [], ◌∷◌, ◌++◌, arith}
use bomboclaat_os.Base.Int.{negsuc, pos, minus_one}
use bomboclaat_os.Strings.{
  strlen_from, strlen, strcmp, strncmp_up_to, strncmp, to_lower_case, to_upper_case, atoi,
}
use bomboclaat_os.Strings.Edit.{reverse_from, reverse}
use bomboclaat_os.Strings.Number.{itoa_char, itoa_digits, itoa_finish, itoa}
use bomboclaat_os.Strings.RoundTrip.{atoi-itoa}
use bomboclaat_os.Strings.Laws.{IsText}

abbrev abc : List ℕ
abc = b'a' ∷ b'b' ∷ b'c' ∷ []

abbrev abd : List ℕ
abd = b'a' ∷ b'b' ∷ b'd' ∷ []

runs :
    (strlen (some (abc ++ (0 ∷ []))) ≡ some (pos 3))
    × (strlen none ≡ some minus_one)
    × (strlen (some abc) ≡ none)
    × (strcmp (abc ++ (0 ∷ [])) (abd ++ (0 ∷ [])) ≡ some minus_one)
    × (strncmp (abc ++ (0 ∷ [])) (abd ++ (0 ∷ [])) (pos 2) ≡ some (pos 0))
unfolding strlen strlen_from strcmp strncmp strncmp_up_to
runs = (refl, refl, refl, refl, refl)

cases_of_letters :
    (to_upper_case (abc ++ (0 ∷ [])) ≡ some (b'A' ∷ b'B' ∷ b'C' ∷ 0 ∷ []))
    × (to_lower_case (b'A' ∷ b'1' ∷ 0 ∷ []) ≡ some (b'a' ∷ b'1' ∷ 0 ∷ []))
unfolding to_upper_case to_lower_case
cases_of_letters = (refl, refl)

abc-IsText : IsText abc
abc-IsText = (omega arith, (omega arith, (omega arith, tt)))

abd-IsText : IsText abd
abd-IsText = (omega arith, (omega arith, (omega arith, tt)))

reverse_runs : reverse (abc ++ (0 ∷ [])) 3 ≡ b'c' ∷ b'b' ∷ b'a' ∷ 0 ∷ []
unfolding reverse reverse_from
reverse_runs = refl

prints :
    (itoa (pos 120) 10 ≡ some (b'1' ∷ b'2' ∷ b'0' ∷ 0 ∷ []))
    × (itoa (negsuc 6) 10 ≡ some (b'-' ∷ b'7' ∷ 0 ∷ []))
    × (itoa (pos 255) 16 ≡ some (b'F' ∷ b'F' ∷ 0 ∷ []))
unfolding itoa itoa_finish itoa_digits itoa_char reverse reverse_from to_upper_case
prints = (refl, refl, refl)

atoi-itoa_example : (text : List ℕ) × (itoa (pos 120) 10 ≡ some text) × (atoi text ≡ some (pos 120))
atoi-itoa_example = atoi-itoa 120 (omega arith)
