-- ===== src/Userspace/Page.antt =====
-- core/memory/userspace.c: one page of a string, for copy_string_from_user.
use bomboclaat_os.Base.{
  ℕ, ◌+◌, ◌-◌, ◌%◌, ◌≤◌, ◌<◌, min, ◌≡◌, ◌≢◌, refl, sym, ap, ◌∙◌, ◌⊎◌, inl, inr, Option, some, arith,
  some-injective,
}
use native.Mathlib.Decide.{dec_lt}
use bomboclaat_os.Base.Int.{ℤ, pos, minus_one}
use bomboclaat_os.Memtools.{Mem}
use bomboclaat_os.Memtools.Move.{copied}
use bomboclaat_os.Userspace.Copy.{user_space_limit, page_rest}
use bomboclaat_os.Userspace.Paged.{IsPaged}
use bomboclaat_os.Userspace.From.{Out}
use bomboclaat_os.Userspace.Chunk.{NonZero, Arrived}

-- A string of length `n` begins at `va`: it lies in the user's addresses, in pages for the user,
-- and its byte `n` is its first 0.
abbrev pub IsText : (ℕ → Option ℕ) → (va : ℕ) → Mem → ℕ → Type 0
IsText translate va mem n =
    (i : ℕ)
    → i ≤ n
    → (va + i < user_space_limit)
      × ((p : ℕ) × (translate (va + i) ≡ some p) × (i < n → mem p ≢ 0) × (i ≡ n → mem p ≡ 0))

-- What the outer loop may return when `copied` bytes are there: the length of a string that fits,
-- which is in the buffer then; or -1, and there is no string that fits.
abbrev pub TextOutcome : (ℕ → Option ℕ) → (va dst copied max_len : ℕ) → Mem → ℤ × Mem → Type 0
TextOutcome translate va dst copied max_len mem (r, mem') =
    ((n : ℕ) × (n < max_len - copied)
      × (r ≡ pos (copied + n))
      × IsText translate va mem n
      × ((i p : ℕ) → i ≤ n → translate (va + i) ≡ some p → mem' (dst + copied + i) ≡ mem p)
      × ((q : ℕ) → Out (dst + copied) (max_len - copied) q → mem' q ≡ mem q))
    ⊎ ((r ≡ minus_one)
        × ((n : ℕ) → n < max_len - copied → IsText translate va mem n → ⊥)
        × ((q : ℕ) → Out dst max_len q → mem' q ≡ mem q))

module _ (translate : ℕ → Option ℕ) (paged : IsPaged translate) where
  place_of :
      (va i kptr p : ℕ)
      → translate va ≡ some kptr
      → va % 4096 + i < 4096
      → translate (va + i) ≡ some p
      → p ≡ kptr + i
  place_of va i kptr p at inside h = some-injective (sym h ∙ paged va i kptr inside at)

  -- The string ends in this page.
  pub ended-TextOutcome :
      (va dst copied max_len kptr n : ℕ) (mem mem' : Mem)
      → translate va ≡ some kptr
      → va < user_space_limit
      → n < min (page_rest va) (max_len - copied)
      → NonZero kptr n mem
      → mem (kptr + n) ≡ 0
      → Arrived (dst + copied) kptr (n + 1) mem mem'
      → ((q : ℕ) → Out (dst + copied) (max_len - copied) q → mem' q ≡ mem q)
      → TextOutcome translate va dst copied max_len mem (pos (copied + n), mem')
  ended-TextOutcome va dst copied max_len kptr n mem mem' at user lt nonzero end arrived outside =
      inl (
        n,
        omega arith,
        refl,
        (λ i le. (
          omega arith,
          (
            kptr + i,
            paged va i kptr (omega arith) at,
            (λ h. nonzero i h),
            (λ e. ap (λ (j : ℕ). mem (kptr + j)) e ∙ end),
          ),
        )),
        (λ i p le h.
            arrived i (omega arith) ∙ ap mem (sym (place_of va i kptr p at (omega arith) h))),
        outside,
      )

  -- The string goes on behind this page, or is too long.
  pub going-TextOutcome :
      (va dst copied max_len kptr : ℕ) (mem mem1 : Mem) (r : ℤ) (mem' : Mem)
      → translate va ≡ some kptr
      → va < user_space_limit
      → copied < max_len
      → NonZero kptr (min (page_rest va) (max_len - copied)) mem
      → Arrived (dst + copied) kptr (min (page_rest va) (max_len - copied)) mem mem1
      → ((q : ℕ) → Out (dst + copied) (max_len - copied) q → mem1 q ≡ mem q)
      → ((i p : ℕ) → i < max_len - copied → translate (va + i) ≡ some p → Out dst max_len p)
      → TextOutcome translate
          (va + page_rest va)
          dst
          (copied + min (page_rest va) (max_len - copied))
          max_len
          mem1
          (r, mem')
      → TextOutcome translate va dst copied max_len mem (r, mem')
  going-TextOutcome va dst copied max_len kptr mem mem1 r mem' at user room nonzero arrived outside
        apart rest =
      let page = page_rest va in
      let m = min page (max_len - copied) in
      elim rest [
        | inl (n, lt, done, text, bytes, outside') ↦
            let whole : m ≡ page = omega arith in
            let kept : (i p : ℕ) → i ≤ n → translate (va + page + i) ≡ some p → mem1 p ≡ mem p =
              λ i p le h.
                let out = apart (page + i) p (omega arith) (ap translate (omega arith) ∙ h) in
                outside p (omega arith) in
            let text' : IsText translate va mem (page + n) = λ i le. elim (dec_lt i page) [
              | yes now ↦ (
                omega arith,
                (
                  kptr + i,
                  paged va i kptr (omega arith) at,
                  (λ h. nonzero i (omega arith)),
                  (λ e. absurd (omega arith)),
                ),
              )
              | no later ↦
                  let (below, (p, place, inner, last)) = text (i - page) (omega arith) in
                  let same = kept (i - page) p (omega arith) place in
                  (
                    omega arith,
                    (
                      p,
                      ap translate (omega arith) ∙ place,
                      (λ h e. inner (omega arith) (same ∙ e)),
                      (λ e. sym same ∙ last (omega arith)),
                    ),
                  )
            ] in
            inl (
              page + n,
              omega arith,
              done ∙ ap pos (omega arith),
              text',
              (λ i p le h. elim (dec_lt i page) [
                | yes now ↦
                    outside' (dst + copied + i) (inl (omega arith))
                    ∙ arrived i (omega arith)
                    ∙ ap mem (sym (place_of va i kptr p at (omega arith) h))
                | no later ↦
                    let h' : translate (va + page + (i - page)) ≡ some p =
                      ap translate (omega arith) ∙ h in
                    ap mem' (omega arith)
                    ∙ bytes (i - page) p (omega arith) h'
                    ∙ kept (i - page) p (omega arith) h'
              ]),
              (λ q out. outside' q (omega arith) ∙ outside q out),
            )
        | inr (failed, never, outside') ↦ inr (
          failed,
          (λ n lt text. elim (dec_lt n m) [
            | yes now ↦
                let (_, (p, place, _, last)) = text n (omega arith) in
                let e = place_of va n kptr p at (omega arith) place in
                nonzero n now (ap mem (sym e) ∙ last refl)
            | no later ↦ never (n - page) (omega arith) (λ i le.
                let (below, (p, place, inner, last)) = text (page + i) (omega arith) in
                let out = apart (page + i) p (omega arith) place in
                let same = outside p (omega arith) in
                (
                  omega arith,
                  (
                    p,
                    ap translate (omega arith) ∙ place,
                    (λ h e. inner (omega arith) (sym same ∙ e)),
                    (λ e. same ∙ last (omega arith)),
                  ),
                ))
          ]),
          (λ q out. outside' q out ∙ outside q (omega arith)),
        )
      ]
