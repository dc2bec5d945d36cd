-- ===== src/Strings/Laws.antt =====
-- lib/string.c: comparison, copying, length and conversion of strings.
use bomboclaat_os.Base.{
  ℕ, suc, ◌+◌, ◌-◌, ◌*◌, ◌%◌, ◌^◌, ◌≤◌, ◌<◌, ◌≡◌, ◌≢◌, refl, sym, ap, ap₂, false≢true, ◌∙◌, inl,
  inr, ◌↔◌, true, false, ◌&&◌, Option, none, some, List, [], ◌∷◌, ◌++◌, ◌==◌, ==_iff, ==_false, leb,
  Bool-cases, length, drop, map, arith,
}
use bomboclaat_os.Base.Int.{ℤ, pos, sub_ℕ, signed32}
use bomboclaat_os.Strings.{strcmp, copy_text, strcpy, atoi_from, times_factor, atoi}

-- No byte of the text is zero.
abbrev pub IsText : List ℕ → Type 0
IsText [] = Unit {0}
IsText (c ∷ cs) = (c ≢ 0) × IsText cs

-- What strcmp may say of two texts.
abbrev pub Compares : List ℕ → List ℕ → Option ℤ → Type 0
Compares a b none = ⊥
Compares a b (some r) = (r ≡ pos 0) ↔ (a ≡ b)

sub_ℕ_zero : (a b : ℕ) → sub_ℕ a b ≡ pos 0 → a ≡ b
sub_ℕ_zero a b h = ground arith

abbrev head_or : ℕ → List ℕ → ℕ
head_or d [] = d
head_or d (c ∷ cs) = c

abbrev tail : List ℕ → List ℕ
tail [] = []
tail (c ∷ cs) = cs

Compares-cons :
    (c d : ℕ) (a b : List ℕ) (r : Option ℤ) → c ≡ d → Compares a b r → Compares (c ∷ a) (d ∷ b) r
Compares-cons c d a b none e k = k
Compares-cons c d a b (some r) e k = ((λ z. ap₂ (λ h t. h ∷ t) e (k.0 z)), (λ z. k.1 (ap tail z)))

-- strcmp on two strings ends within them, and its result is 0 exactly if the texts before their zero
-- bytes are the same.
pub strcmp-Compares :
    (a b x y : List ℕ) → IsText a → IsText b → Compares a b (strcmp (a ++ (0 ∷ x)) (b ++ (0 ∷ y)))
unfolding strcmp
strcmp-Compares [] [] x y ta tb = ((λ e. refl), λ e. refl)
strcmp-Compares [] (d ∷ b) x y ta tb = ((λ e. absurd (tb.0 (sym (sub_ℕ_zero 0 d e)))), λ e. cc)
strcmp-Compares (c ∷ a) [] x y ta tb =
    let ne = ==_false c 0 ta.0 in rw ne ((λ e. absurd (ta.0 (sub_ℕ_zero c 0 e))), λ e. cc)
strcmp-Compares (c ∷ a) (d ∷ b) x y ta tb =
    let ne = ==_false c 0 ta.0 in
    elim (Bool-cases (c == d)) [
      | inl e ↦
          rw (ne, e)
            (Compares-cons c d a b (strcmp (a ++ (0 ∷ x)) (b ++ (0 ∷ y))) ((==_iff c d).0 e)
              (strcmp-Compares a b x y ta.1 tb.1))
      | inr other ↦
          let differ : c ≢ d = λ h. false≢true (sym other ∙ (==_iff c d).1 h) in
          rw (ne, other)
            ((λ e. absurd (differ (sub_ℕ_zero c d e))), λ e. absurd (differ (ap (head_or c) e)))
    ]

copy_text_lem :
    (a x p : List ℕ)
    → IsText a
    → length a < length p
    → copy_text (a ++ (0 ∷ x)) p ≡ some (a ++ (0 ∷ drop (length a + 1) p))
unfolding copy_text
copy_text_lem [] x [] t room = absurd (omega arith)
copy_text_lem [] x (p ∷ ps) t room = refl
copy_text_lem (c ∷ cs) x [] t room = absurd (omega arith)
copy_text_lem (c ∷ cs) x (p ∷ ps) t room =
    let ne = ==_false c 0 t.0 in
    let more : suc (length cs + 1) ≡ suc (length cs) + 1 = omega arith in
    rw (ne, copy_text_lem cs x ps t.1 (omega arith))
      (ap (λ (n : ℕ). some (c ∷ (cs ++ (0 ∷ drop n (p ∷ ps))))) more)

-- strcpy to a target with room copies the text and its zero byte, and leaves what is behind.
pub strcpy_lem :
    (a x p : List ℕ)
    → IsText a
    → length a < length p
    → strcpy (some (a ++ (0 ∷ x))) (some p) ≡ some (some (a ++ (0 ∷ drop (length a + 1) p)))
unfolding strcpy
strcpy_lem a x p t room = rw (strcpy, copy_text_lem a x p t room) refl

-- The number that decimal digits stand for, behind the digits of `acum`.
abbrev pub decimal : List ℕ → ℕ → ℕ
decimal [] acum = acum
decimal (d ∷ ds) acum = decimal ds (acum * 10 + d)

abbrev pub AreDigits : List ℕ → Type 0
AreDigits [] = Unit {0}
AreDigits (d ∷ ds) = (d < 10) × AreDigits ds

abbrev pub digit_char : ℕ → ℕ
digit_char d = d + b'0'

decimal-le : (ds : List ℕ) (acum : ℕ) → acum ≤ decimal ds acum
decimal-le [] acum = omega arith
decimal-le (d ∷ ds) acum = omega (arith, decimal-le ds (acum * 10 + d))

atoi_from_lem :
    (ds x : List ℕ) (acum : ℕ)
    → AreDigits ds
    → decimal ds acum < 2 ^ 31
    → atoi_from (map digit_char ds ++ (0 ∷ x)) acum ≡ some (decimal ds acum)
unfolding atoi_from
atoi_from_lem [] x acum t small = refl
atoi_from_lem (d ∷ ds) x acum t small =
    let digit : (leb b'0' (d + b'0') && leb (d + b'0') b'9') ≡ true = ground (arith, t.0) in
    let next : (acum * 10 + (d + b'0' - 48)) % 2 ^ 32 ≡ acum * 10 + d =
      omega (arith, decimal-le ds (acum * 10 + d)) in
    rw (digit, next) (atoi_from_lem ds x (acum * 10 + d) t.1 small)

-- atoi of the decimal digits of a number below 2^31, with at least one digit, is the number, and of
-- a minus sign and the digits its negation.
pub atoi_digits :
    (d : ℕ) (ds x : List ℕ)
    → AreDigits (d ∷ ds)
    → decimal (d ∷ ds) 0 < 2 ^ 31
    → let text = map digit_char (d ∷ ds) ++ (0 ∷ x) in
      (atoi text ≡ some (pos (decimal (d ∷ ds) 0)))
      × (atoi (b'-' ∷ text) ≡ some (sub_ℕ 0 (decimal (d ∷ ds) 0)))
unfolding atoi
atoi_digits d ds x t small =
    let minus : (digit_char d == b'-') ≡ false = ground (arith, t.0) in
    let n = decimal (d ∷ ds) 0 in
    let e = atoi_from_lem (d ∷ ds) x 0 t small in
    let plain : signed32 n ≡ pos n = ground arith in
    let negated : signed32 ((2 ^ 32 - n) % 2 ^ 32) ≡ sub_ℕ 0 n = ground arith in
    (
      rw minus (ap (times_factor false) e ∙ ap some plain),
      ap (times_factor true) e ∙ ap some negated,
    )
