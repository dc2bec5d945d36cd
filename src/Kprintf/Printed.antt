-- ===== src/Kprintf/Printed.antt =====
-- core/kprintf.c: what print_dec and print_hex write.
use bomboclaat_os.Base.{
  ℕ, zero, suc, ◌+◌, ◌-◌, ◌*◌, ◌/◌, ◌%◌, ◌^◌, ◌<◌, ◌≡◌, refl, sym, ap, ◌∙◌, Option, none, some,
  List, [], ◌∷◌, ◌++◌, map, length, length-append, replicate, arith,
}
use bomboclaat_os.Strings.Laws.{decimal, AreDigits, digit_char}
use bomboclaat_os.Kprintf.Digits.{count_digits, dec_digits, print_dec}
use bomboclaat_os.Kprintf.Counted.{power, Counted, count_digits-Counted, ten}

-- The last `n` decimal digits, the lowest last.
abbrev pub last_digits : ℕ → ℕ → List ℕ
last_digits zero value = []
last_digits (suc n) value = last_digits n (value / 10) ++ (value % 10 ∷ [])

map-append :
    (xs : List ℕ) (d : ℕ)
    → map digit_char (xs ++ (d ∷ [])) ≡ map digit_char xs ++ (digit_char d ∷ [])
map-append [] d = refl
map-append (x ∷ xs) d = ap (λ l. digit_char x ∷ l) (map-append xs d)

dec_digits-last_digits : (n value : ℕ) → dec_digits n value ≡ map digit_char (last_digits n value)
unfolding dec_digits
dec_digits-last_digits zero value = refl
dec_digits-last_digits (suc n) value =
    ap (λ l. l ++ (digit_char (value % 10) ∷ [])) (dec_digits-last_digits n (value / 10))
    ∙ sym (map-append (last_digits n (value / 10)) (value % 10))

decimal-append :
    (xs : List ℕ) (d acum : ℕ) → decimal (xs ++ (d ∷ [])) acum ≡ decimal xs acum * 10 + d
decimal-append [] d acum = refl
decimal-append (x ∷ xs) d acum = decimal-append xs d (acum * 10 + x)

decimal-last_digits : (n value : ℕ) → value < power 10 n → decimal (last_digits n value) 0 ≡ value
decimal-last_digits zero value lt = omega arith
decimal-last_digits (suc n) value lt =
    let before = decimal-last_digits n (value / 10) (omega arith) in
    decimal-append (last_digits n (value / 10)) (value % 10) 0 ∙ omega arith

AreDigits-append : (xs : List ℕ) (d : ℕ) → AreDigits xs → d < 10 → AreDigits (xs ++ (d ∷ []))
AreDigits-append [] d t small = (small, tt)
AreDigits-append (x ∷ xs) d t small = (t.0, AreDigits-append xs d t.1 small)

last_digits-AreDigits : (n value : ℕ) → AreDigits (last_digits n value)
last_digits-AreDigits zero value = tt
last_digits-AreDigits (suc n) value =
    AreDigits-append (last_digits n (value / 10)) (value % 10)
      (last_digits-AreDigits n (value / 10)) (omega arith)

length-last_digits : (n value : ℕ) → length (last_digits n value) ≡ n
length-last_digits zero value = refl
length-last_digits (suc n) value =
    length-append (last_digits n (value / 10)) (value % 10 ∷ [])
    ∙ let before = length-last_digits n (value / 10) in omega arith

-- Padding up to the width, and digits, at least one, that make up the value.
pub record PrintsDec (value width pad_char : ℕ) (out : List ℕ) : Type 0 where
  pub digits : List ℕ
  pub are_digits : AreDigits digits
  pub some_digits : 0 < length digits
  pub is_value : decimal digits 0 ≡ value
  pub written : out ≡ replicate (width - length digits) pad_char ++ map digit_char digits

abbrev pub PrintedDec : (value width pad_char : ℕ) → Option (List ℕ) → Type 0
PrintedDec value width pad_char = elim [ none ↦ ⊥ | some out ↦ PrintsDec value width pad_char out ]

-- For each value of 32 bits print_dec ends, within 31 rounds of the loop that counts the digits, and
-- writes decimal digits, at least one, that make up the value, behind as many padding characters as are
-- missing to the width.
pub print_dec-PrintedDec :
    (value width pad_char : ℕ)
    → value < 2 ^ 32
    → PrintedDec value width pad_char (print_dec value width pad_char)
unfolding print_dec
print_dec-PrintedDec value width pad_char lt =
    printed (count_digits 31 10 value 1 9)
      (count_digits-Counted 10 32 31 value 1 9 ten lt (omega arith) refl)
  where
    printed :
        (o : Option ℕ)
        → Counted 10 value 1 31 o
        → PrintedDec value width pad_char (elim o [
          | none ↦ none
          | some n ↦ some (replicate (width - n) pad_char ++ dec_digits n value)
        ])
    printed none c = c
    printed (some n) (small, lo, hi) =
        let len = length-last_digits n value in
        record {
          digits = last_digits n value;
          are_digits = last_digits-AreDigits n value;
          some_digits = omega arith;
          is_value = decimal-last_digits n value small;
          written =
              rw len
                (ap (λ l. replicate (width - n) pad_char ++ l) (dec_digits-last_digits n value));
        }
