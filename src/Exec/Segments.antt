-- ===== src/Exec/Segments.antt =====
-- core/tasks/exec.c: the loop of elf_validate over the segments.
use bomboclaat_os.Base.{
  ℕ, zero, suc, ◌+◌, ◌≤◌, ◌<◌, ◌≡◌, refl, sym, ap, ◌∙◌, ◌↔◌, ◌⊎◌, inl, inr, Bool, true, false, ◌||◌,
  Option, none, some, ◌==◌, ==_iff, Bool-cases, false≢true, arith, subst,
}
use bomboclaat_os.Exec.Elf.{Phdr, is_load}
use bomboclaat_os.Exec.Validate.{segment_refused, entered, check_segments}
use bomboclaat_os.Exec.Program.{IsSegment}

segment_refused_iff :
    (size : ℕ) (ph : Phdr)
    → is_load ph ≡ true
    → (segment_refused size ph ≡ false) ↔ IsSegment size ph
segment_refused_iff size ph load = (
  (λ h. record {
    filled = ground arith;
    bounded = ground arith;
    in_file = ground arith;
    above = ground arith;
    below = ground arith;
  }),
  (λ s.
      let a = s.filled in
      let b = s.bounded in let c = s.in_file in let d = s.above in let e = s.below in ground arith),
)

-- The segment is loaded and its code has the address.
abbrev pub CanStart : ℕ → Phdr → Type 0
CanStart entry ph = (is_load ph ≡ true) × (entered entry ph ≡ true)

module _ (ph : ℕ → Phdr) (size entry : ℕ) where
  -- What the loop may return for the segments from `i` on.
  abbrev pub Checked : (rounds i loads : ℕ) → Bool → Option (ℕ × Bool) → Type 0
  Checked rounds i loads entry_ok none =
      (j : ℕ) × (i ≤ j) × (j < i + rounds) × (is_load (ph j) ≡ true) × (IsSegment size (ph j) → ⊥)
  Checked rounds i loads entry_ok (some (loads', entry_ok')) =
      ((j : ℕ) → i ≤ j → j < i + rounds → is_load (ph j) ≡ true → IsSegment size (ph j))
      × (loads ≤ loads')
      × ((entry_ok' ≡ true)
          → (entry_ok ≡ true) ⊎ ((j : ℕ) × (j < i + rounds) × CanStart entry (ph j)))
      × ((entry_ok ≡ true) → entry_ok' ≡ true)
      × ((j : ℕ)
          → i ≤ j
          → j < i + rounds
          → CanStart entry (ph j)
          → (entry_ok' ≡ true) × (loads < loads'))

  -- A segment that is not loaded.
  Checked-skip :
      (rounds i loads : ℕ) (entry_ok : Bool) (o : Option (ℕ × Bool))
      → is_load (ph i) ≡ false
      → Checked rounds (i + 1) loads entry_ok o
      → Checked (suc rounds) i loads entry_ok o
  Checked-skip rounds i loads entry_ok none off (j, lo, hi, load, bad) =
      (j, omega arith, omega arith, load, bad)
  Checked-skip rounds i loads entry_ok (some (loads', entry_ok')) off (good, more, why, kept, all) =
      (
        (λ j lo hi load. elim (Bool-cases (i == j)) [
          | inl e ↦
              absurd (false≢true (sym off ∙ ap (λ k. is_load (ph k)) ((==_iff i j).0 e) ∙ load))
          | inr ne ↦ good j (ground arith) (omega arith) load
        ]),
        more,
        (λ h. elim (why h) [
          | inl before ↦ inl before
          | inr (j, hi, start) ↦ inr (j, omega arith, start)
        ]),
        kept,
        (λ j lo hi start. elim (Bool-cases (i == j)) [
          | inl e ↦
              absurd (false≢true (sym off ∙ ap (λ k. is_load (ph k)) ((==_iff i j).0 e) ∙ start.0))
          | inr ne ↦ all j (ground arith) (omega arith) start
        ]),
      )

  -- A segment that is loaded.
  Checked-load :
      (rounds i loads : ℕ) (entry_ok : Bool) (o : Option (ℕ × Bool))
      → is_load (ph i) ≡ true
      → IsSegment size (ph i)
      → Checked rounds (i + 1) (loads + 1) (entry_ok || entered entry (ph i)) o
      → Checked (suc rounds) i loads entry_ok o
  Checked-load rounds i loads entry_ok none on fine (j, lo, hi, load, bad) =
      (j, omega arith, omega arith, load, bad)
  Checked-load rounds i loads entry_ok (some (loads', entry_ok')) on fine
        (good, more, why, kept, all) =
      (
        (λ j lo hi load. elim (Bool-cases (i == j)) [
          | inl e ↦ subst (λ k. IsSegment size (ph k)) ((==_iff i j).0 e) fine
          | inr ne ↦ good j (ground arith) (omega arith) load
        ]),
        omega arith,
        (λ h. elim (why h) [
          | inr (j, hi, start) ↦ inr (j, omega arith, start)
          | inl before ↦ elim (Bool-cases entry_ok) [
            | inl yes' ↦ inl yes'
            | inr no' ↦ inr (i, omega arith, (on, rw no' at before))
          ]
        ]),
        (λ h. kept (rw h refl)),
        (λ j lo hi start. elim (Bool-cases (i == j)) [
          | inl e ↦
              let here : entered entry (ph i) ≡ true =
                ap (λ k. entered entry (ph k)) ((==_iff i j).0 e) ∙ start.1 in
              (kept (or_true entry_ok (entered entry (ph i)) here), omega arith)
          | inr ne ↦
              let (yes', larger) = all j (ground arith) (omega arith) start in (yes', omega arith)
        ]),
      )
    where
      or_true : (a b : Bool) → b ≡ true → (a || b) ≡ true
      or_true true b h = refl
      or_true false b h = h

  pub check_segments-Checked :
      (rounds i loads : ℕ) (entry_ok : Bool)
      → Checked rounds i loads entry_ok (check_segments ph size entry rounds i loads entry_ok)
  unfolding check_segments
  check_segments-Checked zero i loads entry_ok = (
    (λ j lo hi load. absurd (omega arith)),
    omega arith,
    (λ h. inl h),
    (λ h. h),
    (λ j lo hi start. absurd (omega arith)),
  )
  check_segments-Checked (suc rounds) i loads entry_ok = elim (Bool-cases (is_load (ph i))) [
    | inr off ↦ rw off (
        Checked-skip rounds i loads entry_ok _ off
          (check_segments-Checked rounds (i + 1) loads entry_ok))
    | inl on ↦ elim (Bool-cases (segment_refused size (ph i))) [
      | inl bad ↦
          rw (on, bad)
            (
              i,
              omega arith,
              omega arith,
              on,
              (λ s. false≢true (sym ((segment_refused_iff size (ph i) on).1 s) ∙ bad)),
            )
      | inr fine ↦
          rw (on, fine)
            (Checked-load rounds i loads entry_ok _ on ((segment_refused_iff size (ph i) on).0 fine)
              (check_segments-Checked rounds (i + 1) (loads + 1)
                (entry_ok || entered entry (ph i))))
    ]
  ]
