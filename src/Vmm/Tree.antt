-- ===== src/Vmm/Tree.antt =====
-- core/memory/vmm.c: the tables of one address space form a tree, and next_table grows it.
use bomboclaat_os.Base.{
  ℕ, suc, ◌+◌, ◌*◌, ◌/◌, ◌%◌, ◌^◌, ◌≤◌, ◌<◌, ◌≡◌, refl, sym, ap, ◌∙◌, ◌≢◌, ◌⊎◌, inl, inr, true,
  false, Option, none, some, List, [], ◌∷◌, ◌==◌, ==_iff, ==_false, if◌then◌else◌, Bool-cases,
  arith, false≢true,
}
use bomboclaat_os.Pmm.{is_used}
use bomboclaat_os.Pmm.Frames.{IsValid}
use bomboclaat_os.Vmm.Table.{Tables, Vm, present, clear_flags, put_entry}

-- The level of a table, 3 for the pml4, and the indices that lead to it, as one number.
abbrev pub Role : Type 0
Role = ℕ → Option (ℕ × ℕ)

-- Entry `i` of a table of that level lies in the user's half.
abbrev pub IsUser : ℕ → ℕ → Type 0
IsUser level i = (i < 512) × (level ≡ 3 → i < 256)

-- Each table below the pml4 has one place in the tree, and lies in a frame that is used. No entry
-- stands for a large page.
pub record IsTree (root : ℕ) (role : Role) (s : Vm) : Type 0 where
  pub valid : IsValid s.pmm
  pub some_frames : 0 < s.pmm.total_frames
  pub addressable : s.pmm.total_frames ≤ 2 ^ 40
  pub at_root : role root ≡ some (3, 0)
  pub child :
      (t l pre i : ℕ)
      → role t ≡ some (suc l, pre)
      → IsUser (suc l) i
      → present (s.entry t i) ≡ true
      → (role (clear_flags (s.entry t i)) ≡ some (l, pre * 512 + i)) × (s.entry t i / 128 % 2 ≡ 0)
  pub held :
      (t : ℕ) (n : ℕ × ℕ)
      → role t ≡ some n
      → (t % 4096 ≡ 0) × (is_used s.pmm.bitmap (t / 4096) ≡ true)

-- The entry of the lowest level that the indices lead to.
abbrev pub walk : List ℕ → ℕ → Tables → Option ℕ
walk [] t entry = none
walk (i ∷ []) t entry = if present (entry t i) then some (entry t i) else none
walk (i ∷ j ∷ js) t entry =
    if present (entry t i) then walk (j ∷ js) (clear_flags (entry t i)) entry else none

-- The indices lead from a table of that level through the user's half.
abbrev pub IsPath : ℕ → List ℕ → Type 0
IsPath level [] = ⊥
IsPath level (i ∷ []) = (level ≡ 0) × IsUser level i
IsPath level (i ∷ j ∷ js) = IsUser level i × ((k : ℕ) × (level ≡ suc k) × IsPath k (j ∷ js))

-- Flags of a page that is present, without bits 7 and above 11.
pub record AreFlags (flags : ℕ) : Type 0 where
  pub low : flags < 4096
  pub is_present : flags % 2 ≡ 1
  pub small : flags / 128 % 2 ≡ 0

-- The tree has grown by one table at most, and every walk ends as before.
pub record Extended (root t i t' : ℕ) (node : ℕ × ℕ) (role : Role) (s s' : Vm) : Type 0 where
  pub role' : Role
  pub tree : IsTree root role' s'
  pub grows : (u : ℕ) (n : ℕ × ℕ) → role u ≡ some n → role' u ≡ some n
  pub at : role' t' ≡ some node
  pub linked : (present (s'.entry t i) ≡ true) × (clear_flags (s'.entry t i) ≡ t')
  pub kept :
      (u j : ℕ) (n : ℕ × ℕ)
      → role u ≡ some n
      → present (s.entry u j) ≡ true
      → (present (s'.entry u j) ≡ true) × (clear_flags (s'.entry u j) ≡ clear_flags (s.entry u j))
  pub walks :
      (js : List ℕ) (u k q : ℕ)
      → role u ≡ some (k, q)
      → IsPath k js
      → walk js u s'.entry ≡ walk js u s.entry

pub put_hit : (t i e : ℕ) (entry : Tables) → put_entry t i e entry t i ≡ e
put_hit t i e entry = let a = (==_iff t t).1 refl in let b = (==_iff i i).1 refl in rw (a, b) refl

pub put_miss :
    (t i e : ℕ) (entry : Tables) (u j : ℕ)
    → (u ≢ t) ⊎ (j ≢ i)
    → put_entry t i e entry u j ≡ entry u j
put_miss t i e entry u j (inl ne) = let a = ==_false u t ne in rw a refl
put_miss t i e entry u j (inr ne) =
    let b = ==_false j i ne in
    elim (Bool-cases (u == t)) [ inl a ↦ rw (a, b) refl | inr a ↦ rw a refl ]

-- An entry is the one at `t`, `i`, or another one.
pub same_entry : (t i u j : ℕ) → ((u ≡ t) × (j ≡ i)) ⊎ ((u ≢ t) ⊎ (j ≢ i))
same_entry t i u j = elim (Bool-cases (u == t)) [
  | inr a ↦ inr (inl (λ e. false≢true (sym a ∙ (==_iff u t).1 e)))
  | inl a ↦ elim (Bool-cases (j == i)) [
    | inl b ↦ inl ((==_iff u t).0 a, (==_iff j i).0 b)
    | inr b ↦ inr (inr (λ e. false≢true (sym b ∙ (==_iff j i).1 e)))
  ]
]

-- What may differ between two states of the tables so that each walk ends as before: at an inner
-- entry, the same target or a new one without entries.
pub record SameWalks (role : Role) (entry entry' : Tables) : Type 0 where
  pub leaf : (u q j : ℕ) → role u ≡ some (0, q) → entry' u j ≡ entry u j
  pub inner :
      (u k q j : ℕ)
      → role u ≡ some (suc k, q)
      → ((present (entry' u j) ≡ present (entry u j))
          × (clear_flags (entry' u j) ≡ clear_flags (entry u j)))
        ⊎ ((present (entry u j) ≡ false)
            × ((x : ℕ) → present (entry' (clear_flags (entry' u j)) x) ≡ false))

pub walk-none :
    (j : ℕ) (js : List ℕ) (u : ℕ) (entry : Tables)
    → present (entry u j) ≡ false
    → walk (j ∷ js) u entry ≡ none
walk-none j [] u entry h = rw h refl
walk-none j (k ∷ js) u entry h = rw h refl

pub walk-SameWalks :
    (root : ℕ) (role : Role) (s : Vm) (entry' : Tables)
    → IsTree root role s
    → SameWalks role s.entry entry'
    → (js : List ℕ) (u k q : ℕ) → role u ≡ some (k, q)
    → IsPath k js
    → walk js u entry' ≡ walk js u s.entry
walk-SameWalks root role s entry' tree same [] u k q place path = absurd path
walk-SameWalks root role s entry' tree same (j ∷ []) u k q place path =
    let e : entry' u j ≡ s.entry u j =
      same.leaf u q j (place ∙ ap (λ (n : ℕ). some (n, q)) path.0) in
    rw e refl
walk-SameWalks root role s entry' tree same (j ∷ x ∷ js) u k q place (user, (k', e, path)) =
    let place' : role u ≡ some (suc k', q) = place ∙ ap (λ (n : ℕ). some (n, q)) e in
    let user' : IsUser (suc k') j = rw e at user in
    elim (same.inner u k' q j place') [
      | inr (gone, empty) ↦
          walk_new j x js u entry' (empty x) ∙ sym (walk-none j (x ∷ js) u s.entry gone)
      | inl (p, c) ↦ elim (Bool-cases (present (s.entry u j))) [
        | inr gone ↦ rw (p, gone) refl
        | inl there ↦
            rw (p, there, c)
              (walk-SameWalks root role s entry' tree same (x ∷ js) (clear_flags (s.entry u j)) k'
                (q * 512 + j) (tree.child u k' q j place' user' there).0 path)
      ]
    ]
  where
    walk_new :
        (j x : ℕ) (js : List ℕ) (u : ℕ) (entry : Tables)
        → present (entry (clear_flags (entry u j)) x) ≡ false
        → walk (j ∷ x ∷ js) u entry ≡ none
    walk_new j x js u entry h = elim (Bool-cases (present (entry u j))) [
      | inl there ↦ rw there (walk-none x js (clear_flags (entry u j)) entry h)
      | inr gone ↦ rw gone refl
    ]

abbrev pub level_of : Option (ℕ × ℕ) → ℕ
level_of none = 0
level_of (some (level, pre)) = level

pub levels_apart :
    {l q pre : ℕ} (role : Role) (u t : ℕ)
    → u ≡ t
    → role u ≡ some (0, q)
    → role t ≡ some (suc l, pre)
    → ⊥
levels_apart {l} role u t e h k =
    let z : 0 ≡ suc l = ap level_of (sym h ∙ ap role e ∙ k) in omega arith
