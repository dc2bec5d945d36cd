-- ===== src/Paths/Names.antt =====
-- Names as strings in memory, and the loops that look for one.
use bomboclaat_os.Base.{
  ℕ, zero, suc, Bool, true, false, Option, none, some, List, [], ◌∷◌, ◌++◌, ◌≡◌, ◌↔◌, refl, ap,
  false≢true, if◌then◌else◌,
}
use bomboclaat_os.Base.Int.{ℤ, pos, negsuc}
use bomboclaat_os.Strings.{strcmp}
use bomboclaat_os.Strings.Laws.{IsText, Compares, strcmp-Compares}

-- The text before the zero byte of the string at each pointer.
abbrev pub Texts : Type 0
Texts = ℕ → List ℕ

abbrev pub is_zero : Option ℤ → Bool
is_zero (some (pos zero)) = true
is_zero (some (pos (suc n))) = false
is_zero (some (negsuc n)) = false
is_zero none = false

-- `strcmp(a, b) == 0`
unfoldable pub same_text : List ℕ → List ℕ → Bool
same_text a b = is_zero (strcmp (a ++ (0 ∷ [])) (b ++ (0 ∷ [])))

-- The first of a list whose name is `key`.
unfoldable pub find_named {ℓ} : {A : Type ℓ} → Texts → (A → ℕ) → List ℕ → List A → Option A
find_named texts name_of key [] = none
find_named texts name_of key (x ∷ xs) =
    let rest = find_named texts name_of key xs in
    if same_text (texts (name_of x)) key then some x else rest

zero_iff : (a b : List ℕ) (r : Option ℤ) → Compares a b r → (is_zero r ≡ true) ↔ (a ≡ b)
zero_iff a b none c = absurd c
zero_iff a b (some (pos zero)) c = ((λ e. c.0 refl), λ e. refl)
zero_iff a b (some (pos (suc n))) c =
    ((λ e. absurd (false≢true e)), λ e. ap (λ r. is_zero (some r)) (c.1 e))
zero_iff a b (some (negsuc n)) c =
    ((λ e. absurd (false≢true e)), λ e. ap (λ r. is_zero (some r)) (c.1 e))

pub same_text_iff : (a b : List ℕ) → IsText a → IsText b → (same_text a b ≡ true) ↔ (a ≡ b)
unfolding same_text
same_text_iff a b ta tb =
    zero_iff a b (strcmp (a ++ (0 ∷ [])) (b ++ (0 ∷ []))) (strcmp-Compares a b [] [] ta tb)
