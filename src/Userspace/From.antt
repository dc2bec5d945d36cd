-- ===== src/Userspace/From.antt =====
-- core/memory/userspace.c: copy_from_user against the translation of each single byte.
use bomboclaat_os.Base.{
  ℕ, zero, suc, ◌+◌, ◌-◌, ◌%◌, ◌^◌, ◌≤◌, ◌<◌, min, ◌≡◌, refl, sym, ap, ◌∙◌, ◌⊎◌, inl, inr, Option,
  none, some, Option-cases, ◌==◌, ==_iff, Bool-cases, arith, false≢true,
}
use native.Mathlib.Decide.{dec_lt}
use bomboclaat_os.Base.Int.{ℤ, pos, minus_one}
use bomboclaat_os.Memtools.{Mem, memcpy}
use bomboclaat_os.Memtools.Move.{copied, copied_in, copied_out, memcpy-copied}
use bomboclaat_os.Userspace.Copy.{
  Context, user_space_limit, user_range_valid, user_page_translate, page_rest, copy_from_loop,
  copy_from_user,
}
use bomboclaat_os.Userspace.Paged.{
  IsPaged, user_page_translate-IsPaged, InUser, user_range_valid_iff,
}

-- `q` is none of the `len` addresses from `at` on.
abbrev pub Out : ℕ → ℕ → ℕ → Type 0
Out at len q = (q < at) ⊎ (at + len ≤ q)

-- No byte of the pages behind the range is one of the kernel's `len` bytes at `buffer`.
abbrev pub Apart : (ℕ → Option ℕ) → (va buffer len : ℕ) → Type 0
Apart translate va buffer len = (i p : ℕ) → i < len → translate (va + i) ≡ some p → Out buffer len p

-- What the loop may return for `len` bytes from `va` to `to`.
abbrev pub InOutcome : (ℕ → Option ℕ) → (va to len : ℕ) → Mem → ℤ × Mem → Type 0
InOutcome translate va to len mem (r, mem') =
    ((q : ℕ) → Out to len q → mem' q ≡ mem q)
    × (((r ≡ pos 0)
          × ((i : ℕ) → i < len → (p : ℕ) × (translate (va + i) ≡ some p) × (mem' (to + i) ≡ mem p)))
        ⊎ ((r ≡ minus_one) × ((i : ℕ) × (i < len) × (translate (va + i) ≡ none))))

module _ (translate : ℕ → Option ℕ) (paged : IsPaged translate) where
  InOutcome-step :
      (va to len kptr chunk : ℕ) (mem mem1 : Mem) (r : ℤ) (mem' : Mem)
      → translate va ≡ some kptr
      → chunk ≤ len
      → va % 4096 + chunk ≤ 4096
      → Apart translate va to len
      → ((q : ℕ) → mem1 q ≡ copied to kptr chunk mem q)
      → InOutcome translate (va + chunk) (to + chunk) (len - chunk) mem1 (r, mem')
      → InOutcome translate va to len mem (r, mem')
  InOutcome-step va to len kptr chunk mem mem1 r mem' at fits page apart law (outside, rest) = (
    (λ q out. outside q (omega arith) ∙ law q ∙ copied_out to kptr chunk mem q (omega arith)),
    elim rest [
      | inr (failed, (i, lt, gone)) ↦
          inr (failed, (chunk + i, omega arith, ap translate (omega arith) ∙ gone))
      | inl (ok, bytes) ↦ inl (
        ok,
        λ i lt. elim (dec_lt i chunk) [
          | yes now ↦
              let here =
                outside (to + i) (inl (omega arith))
                ∙ law (to + i)
                ∙ copied_in to kptr chunk mem (to + i) (omega arith) (omega arith)
                ∙ ap mem (omega arith) in
              (kptr + i, paged va i kptr (omega arith) at, here)
          | no later ↦
              let (p, place, byte) = bytes (i - chunk) (omega arith) in
              let place' : translate (va + i) ≡ some p = ap translate (omega arith) ∙ place in
              let kept =
                law p
                ∙ copied_out to kptr chunk mem p (let out = apart i p lt place' in omega arith) in
              (p, place', ap mem' (omega arith) ∙ byte ∙ kept)
        ],
      )
    ],
  )

  copy_from_loop-InOutcome :
      (rounds va to len : ℕ) (mem : Mem)
      → len ≤ rounds
      → va + len ≤ user_space_limit
      → Apart translate va to len
      → InOutcome translate va to len mem (copy_from_loop translate rounds va to len mem)
  unfolding copy_from_loop
  copy_from_loop-InOutcome zero va to len mem enough below apart =
      ((λ q out. refl), inl (refl, λ i lt. absurd (omega arith)))
  copy_from_loop-InOutcome (suc rounds) va to len mem enough below apart =
      elim (Bool-cases (len == 0)) [
        | inl done ↦
            let z = (==_iff len 0).0 done in
            rw done ((λ q out. refl), inl (refl, λ i lt. absurd (omega arith)))
        | inr more ↦ elim (Option-cases (translate va)) [
          | inl gone ↦
              rw (more, gone)
                ((λ q out. refl), inr (refl, (0, ground arith, ap translate (omega arith) ∙ gone)))
          | inr (kptr, at) ↦
              let chunk = min (page_rest va) len in
              let positive : 0 < chunk = ground arith in
              let next : (va + chunk) % 2 ^ 64 ≡ va + chunk = omega arith in
              let mem1 = memcpy to kptr chunk mem in
              let law : (q : ℕ) → mem1 q ≡ copied to kptr chunk mem q = λ q.
                memcpy-copied to kptr chunk mem q (omega arith)
                  (chunk_apart va to len kptr chunk at apart (omega arith) (omega arith)) in
              let apart' : Apart translate (va + chunk) (to + chunk) (len - chunk) = λ i p lt h.
                let out = apart (chunk + i) p (omega arith) (ap translate (omega arith) ∙ h) in
                omega arith in
              let rest =
                copy_from_loop-InOutcome rounds (va + chunk) (to + chunk) (len - chunk) mem1
                  (omega arith) (omega arith) apart' in
              rw (more, at, next)
                (InOutcome-step va to len kptr chunk mem mem1 _ _ at (omega arith) (omega arith)
                  apart law rest)
        ]
      ]
    where
      -- The page's bytes do not begin below the buffer and run into it.
      chunk_apart :
          (va to len kptr chunk : ℕ)
          → translate va ≡ some kptr
          → Apart translate va to len
          → chunk ≤ len
          → va % 4096 + chunk ≤ 4096
          → (to ≤ kptr) ⊎ (kptr + chunk ≤ to)
      chunk_apart va to len kptr chunk at apart fits page = elim (dec_lt kptr to) [
        | no above ↦ inl (omega arith)
        | yes under ↦ elim (dec_lt to (kptr + chunk)) [
          | no beside ↦ inr (omega arith)
          | yes inside ↦
              let i = to - kptr in
              let out = apart i (kptr + i) (omega arith) (paged va i kptr (omega arith) at) in
              absurd (omega arith)
        ]
      ]

  -- Also where the range is empty.
  copy_from_loop-InUser :
      (va to len : ℕ) (mem : Mem)
      → Apart translate va to len
      → InUser va len
      → InOutcome translate va to len mem (copy_from_loop translate len va to len mem)
  unfolding copy_from_loop
  copy_from_loop-InUser va to zero mem apart inside =
      ((λ q out. refl), inl (refl, λ i lt. absurd (omega arith)))
  copy_from_loop-InUser va to (suc n) mem apart inside =
      copy_from_loop-InOutcome (suc n) va to (suc n) mem (omega arith) (omega arith) apart

-- What copy_from_user may return: -1 and nothing is done, without a task or for a range outside the
-- user's addresses; or what the loop returns.
abbrev pub FromOutcome : Context → (dst src len : ℕ) → Mem → ℤ × Mem → Type 0
FromOutcome c dst src len mem res =
    ((pml4 : ℕ) × (c.current_pml4 ≡ some pml4)
      × InUser src len
      × InOutcome (user_page_translate c.hhdm_offset pml4 4 c.vm) src dst len mem res)
    ⊎ ((res ≡ (minus_one, mem)) × ((c.current_pml4 ≡ none) ⊎ (InUser src len → ⊥)))

pub copy_from_user-FromOutcome :
    (c : Context) (dst src len : ℕ) (mem : Mem)
    → c.hhdm_offset % 4096 ≡ 0
    → ((pml4 : ℕ)
        → c.current_pml4 ≡ some pml4
        → Apart (user_page_translate c.hhdm_offset pml4 4 c.vm) src dst len)
    → FromOutcome c dst src len mem (copy_from_user c dst src len mem)
unfolding copy_from_user
copy_from_user-FromOutcome c dst src len mem aligned apart = elim (Option-cases c.current_pml4) [
  | inl idle ↦ rw idle (inr (refl, inl refl))
  | inr (pml4, running) ↦ elim (Bool-cases (user_range_valid src len)) [
    | inr refused ↦
        let outside : InUser src len → ⊥ =
          λ inside. false≢true (sym refused ∙ (user_range_valid_iff src len).1 inside) in
        rw (running, refused) (inr (refl, inr outside))
    | inl accepted ↦
        let inside = (user_range_valid_iff src len).0 accepted in
        let t = user_page_translate c.hhdm_offset pml4 4 c.vm in
        let paged = user_page_translate-IsPaged c.hhdm_offset pml4 4 c.vm aligned in
        rw (running, accepted)
          (inl (
            pml4,
            refl,
            inside,
            copy_from_loop-InUser t paged src dst len mem (apart pml4 running) inside,
          ))
  ]
]
