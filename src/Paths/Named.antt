-- ===== src/Paths/Named.antt =====
-- The loops that look for a name, when an element is added.
use bomboclaat_os.Base.{
  ℕ, Bool, Option, none, some, List, [], ◌∷◌, ◌++◌, ◌≡◌, ◌≢◌, refl, if◌then◌else◌, Bool-cases,
  subst, inl, inr,
}
use bomboclaat_os.Strings.Laws.{IsText}
use bomboclaat_os.Paths.Names.{Texts, same_text, find_named, same_text_iff}

-- The first result if there is one, else the second.
abbrev pub or_else {ℓ} : {A : Type ℓ} → Option A → Option A → Option A
or_else none other = other
or_else (some x) other = some x

pub or_else-none {ℓ} : {A : Type ℓ} (o : Option A) → o ≡ or_else o none
or_else-none none = refl
or_else-none (some x) = refl

abbrev pub only_if {ℓ} : {A : Type ℓ} → Bool → A → Option A
only_if b x = if b then some x else none

pub find_named-append {ℓ} :
    {A : Type ℓ} (texts : Texts) (name_of : A → ℕ) (key : List ℕ) (xs : List A) (x : A)
    → find_named texts name_of key (xs ++ (x ∷ []))
      ≡ or_else (find_named texts name_of key xs) (only_if (same_text (texts (name_of x)) key) x)
unfolding find_named
find_named-append texts name_of key [] x = refl
find_named-append texts name_of key (y ∷ ys) x =
    elim (Bool-cases (same_text (texts (name_of y)) key)) [
      | inl same ↦ rw (same, find_named) refl
      | inr other ↦ rw (other, find_named) (find_named-append texts name_of key ys x)
    ]

abbrev pub NotIn : ℕ → List ℕ → Type 0
NotIn p [] = Unit
NotIn p (q ∷ qs) = (p ≢ q) × NotIn p qs

-- Two stores that agree but at `p`.
pub find_named_agree :
    (texts : Texts) (f g : ℕ → ℕ) (key ps : List ℕ) (p : ℕ)
    → NotIn p ps
    → ((q : ℕ) → p ≢ q → f q ≡ g q)
    → find_named texts f key ps ≡ find_named texts g key ps
unfolding find_named
find_named_agree texts f g key [] p out agree = refl
find_named_agree texts f g key (q ∷ qs) p (ne, out) agree =
    rw (agree q ne, find_named_agree texts f g key qs p out agree) refl

-- A new element in front, whose name is not there yet.
pub find_named-cons {ℓ} :
    {A : Type ℓ} (texts : Texts) (name_of : A → ℕ) (key : List ℕ) (x : A) (xs : List A)
    → IsText key
    → IsText (texts (name_of x))
    → find_named texts name_of (texts (name_of x)) xs ≡ none
    → find_named texts name_of key (x ∷ xs)
      ≡ or_else (find_named texts name_of key xs) (only_if (same_text (texts (name_of x)) key) x)
unfolding find_named
find_named-cons texts name_of key x xs text name_text absent =
    elim (Bool-cases (same_text (texts (name_of x)) key)) [
      | inl same ↦
          let equal = (same_text_iff (texts (name_of x)) key name_text text).0 same in
          let no_other : find_named texts name_of key xs ≡ none =
            subst (λ k. find_named texts name_of k xs ≡ none) equal absent in
          rw (same, no_other, find_named) refl
      | inr other ↦ rw (other, find_named) (or_else-none (find_named texts name_of key xs))
    ]
