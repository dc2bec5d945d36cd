-- ===== src/Userspace/Line.antt =====
-- core/memory/userspace.c: copy_string_from_user against the string at the user's address.
use bomboclaat_os.Base.{
  ℕ, zero, suc, ◌+◌, ◌-◌, ◌%◌, ◌^◌, ◌≤◌, ◌<◌, min, ◌≡◌, refl, sym, ap, ◌∙◌, ◌⊎◌, inl, inr, Bool,
  true, false, Option, none, some, Option-cases, ◌==◌, ==_iff, ltb, leb, Bool-cases, arith,
  false≢true, none≢some,
}
use bomboclaat_os.Base.Int.{ℤ, pos, minus_one, to_int}
use bomboclaat_os.Memtools.{Mem, store_byte}
use bomboclaat_os.Memtools.Move.{store_byte_miss}
use bomboclaat_os.Userspace.Copy.{
  Context, user_space_limit, user_range_valid, user_page_translate, page_rest,
}
use bomboclaat_os.Userspace.Text.{copy_chunk, copy_string, copy_string_from_user}
use bomboclaat_os.Userspace.Paged.{
  IsPaged, user_page_translate-IsPaged, InUser, user_range_valid_iff,
}
use bomboclaat_os.Userspace.From.{Out, Apart}
use bomboclaat_os.Userspace.Chunk.{ChunkOutcome, copy_chunk-ChunkOutcome}
use bomboclaat_os.Userspace.Page.{IsText, TextOutcome, ended-TextOutcome, going-TextOutcome}

module _ (translate : ℕ → Option ℕ) (paged : IsPaged translate) where
  -- The end of the loop, with a 0 as the last byte of the buffer.
  full-TextOutcome :
      (va dst copied max_len : ℕ) (mem : Mem)
      → max_len ≤ copied
      → 0 < max_len
      → TextOutcome translate va dst copied max_len mem
          (minus_one, store_byte (dst + (max_len - 1)) 0 mem)
  full-TextOutcome va dst copied max_len mem full some_room = inr (
    refl,
    (λ n lt text. omega arith),
    (λ q out. store_byte_miss (dst + (max_len - 1)) 0 mem q (λ e. omega arith)),
  )

  -- One round, from what the inner loop left.
  round-TextOutcome :
      (rounds va dst copied max_len kptr : ℕ) (mem : Mem) (ended : Bool) (copied' : ℕ) (mem1 : Mem)
      → translate va ≡ some kptr
      → va < user_space_limit
      → copied < max_len
      → max_len ≤ 2 ^ 31
      → ((i p : ℕ) → i < max_len - copied → translate (va + i) ≡ some p → Out dst max_len p)
      → ChunkOutcome (page_rest va) kptr dst copied max_len mem (ended, copied', mem1)
      → ((c : ℕ)
          → c ≡ copied + min (page_rest va) (max_len - copied)
          → TextOutcome translate
              (va + page_rest va)
              dst
              c
              max_len
              mem1
              (copy_string translate rounds (va + page_rest va) dst c max_len mem1))
      → TextOutcome translate va dst copied max_len mem (elim ended [
        | true ↦ (to_int (pos (copied' - 1)), mem1)
        | false ↦
            copy_string translate rounds ((va + page_rest va) % 2 ^ 64) dst copied' max_len mem1
      ])
  round-TextOutcome rounds va dst copied max_len kptr mem true copied' mem1 at user room small apart
        (outside, inl (_, (n, lt, c, nonzero, end, arrived))) rest =
      let len : (copied' - 1) % 2 ^ 32 ≡ copied + n = omega arith in
      let positive : ltb (copied + n) (2 ^ 31) ≡ true = ground arith in
      rw (len, positive)
        (ended-TextOutcome translate paged va dst copied max_len kptr n mem mem1 at user lt nonzero
          end arrived outside)
  round-TextOutcome rounds va dst copied max_len kptr mem true copied' mem1 at user room small apart
        (outside, inr (e, _, _, _)) rest =
      absurd (false≢true (sym e))
  round-TextOutcome rounds va dst copied max_len kptr mem false copied' mem1 at user room small
        apart (outside, inl (e, _)) rest =
      absurd (false≢true e)
  round-TextOutcome rounds va dst copied max_len kptr mem false copied' mem1 at user room small
        apart (outside, inr (_, c, nonzero, arrived)) rest =
      let next : (va + page_rest va) % 2 ^ 64 ≡ va + page_rest va = omega arith in
      rw (next, c)
        (going-TextOutcome translate paged va dst copied max_len kptr mem mem1 _ _ at user room
          nonzero arrived outside apart
          (rest (copied + min (page_rest va) (max_len - copied)) refl))

  copy_string-TextOutcome :
      (rounds va dst copied max_len : ℕ) (mem : Mem)
      → max_len ≤ copied + rounds
      → 0 < max_len
      → max_len ≤ 2 ^ 31
      → ((i p : ℕ) → i < max_len - copied → translate (va + i) ≡ some p → Out dst max_len p)
      → TextOutcome translate va dst copied max_len mem
          (copy_string translate rounds va dst copied max_len mem)
  unfolding copy_string
  copy_string-TextOutcome zero va dst copied max_len mem enough some_room small apart =
      full-TextOutcome va dst copied max_len mem (omega arith) some_room
  copy_string-TextOutcome (suc rounds) va dst copied max_len mem enough some_room small apart =
      elim (Bool-cases (ltb copied max_len)) [
        | inr full ↦ rw full (full-TextOutcome va dst copied max_len mem (ground arith) some_room)
        | inl room ↦ elim (Bool-cases (leb user_space_limit va)) [
          | inl over ↦
              let le : user_space_limit ≤ va = ground arith in
              rw (room, over)
                (inr (
                  refl,
                  (λ n lt text. let b = (text 0 (omega arith)).0 in omega arith),
                  (λ q out. refl),
                ))
          | inr under ↦
              let user : va < user_space_limit = ground arith in
              elim (Option-cases (translate va)) [
                | inl gone ↦
                    rw (room, under, gone)
                      (inr (refl, (λ n lt text. stuck va gone n text), (λ q out. refl)))
                | inr (kptr, at) ↦
                    let below : copied < max_len = ground arith in
                    let chunk = copy_chunk (page_rest va) kptr dst copied max_len mem in
                    let outcome =
                      copy_chunk-ChunkOutcome (page_rest va) kptr dst copied max_len mem
                        (λ j h h'. apart j (kptr + j) h' (paged va j kptr (omega arith) at)) in
                    rw (room, under, at)
                      (round-TextOutcome rounds va dst copied max_len kptr mem chunk.0 chunk.1
                        chunk.2 at user below small apart outcome
                        (λ c e.
                          copy_string-TextOutcome rounds (va + page_rest va) dst c max_len chunk.2
                            (omega arith) some_room small
                            (λ i p lt h.
                              apart (page_rest va + i) p (omega arith)
                                (ap translate (omega arith) ∙ h))))
              ]
        ]
      ]
    where
      stuck : (va : ℕ) → translate va ≡ none → (n : ℕ) → {mem : Mem} → IsText translate va mem n → ⊥
      stuck va gone n text =
          let (_, (p, place, _, _)) = text 0 (omega arith) in
          none≢some (sym gone ∙ ap translate (omega arith) ∙ place)

-- What copy_string_from_user may return: -1 and nothing is done, without a task, for an empty
-- buffer or for an address outside the user's; or what the loop returns.
abbrev pub LineOutcome : Context → (dst src max_len : ℕ) → Mem → ℤ × Mem → Type 0
LineOutcome c dst src max_len mem res =
    ((pml4 : ℕ) × (c.current_pml4 ≡ some pml4)
      × TextOutcome (user_page_translate c.hhdm_offset pml4 4 c.vm) src dst 0 max_len mem res)
    ⊎ ((res ≡ (minus_one, mem)) × ((c.current_pml4 ≡ none) ⊎ ((max_len ≡ 0) ⊎ (InUser src 1 → ⊥))))

-- copy_string_from_user with a task, a buffer of 1 to 2^31 bytes and an address of the user's either
-- returns n, and then n is the length of the string at that address, its bytes and its 0 are in the
-- buffer and nothing else changes; or it returns -1, and then no string that fits in the buffer
-- begins there, and no byte outside the buffer changes. Otherwise it returns -1 and changes nothing.
-- The buffer is to lie apart from the pages, and the kernel's view of physical memory is to begin at a
-- page's address.
pub copy_string_from_user-LineOutcome :
    (c : Context) (dst src max_len : ℕ) (mem : Mem)
    → c.hhdm_offset % 4096 ≡ 0
    → max_len ≤ 2 ^ 31
    → ((pml4 : ℕ)
        → c.current_pml4 ≡ some pml4
        → Apart (user_page_translate c.hhdm_offset pml4 4 c.vm) src dst max_len)
    → LineOutcome c dst src max_len mem (copy_string_from_user c dst src max_len mem)
unfolding copy_string_from_user
copy_string_from_user-LineOutcome c dst src max_len mem aligned small apart =
    elim (Option-cases c.current_pml4) [
      | inl idle ↦ rw idle (inr (refl, inl refl))
      | inr (pml4, running) ↦ elim (Bool-cases (max_len == 0)) [
        | inl empty ↦ rw (running, empty) (inr (refl, inr (inl ((==_iff max_len 0).0 empty))))
        | inr room ↦ elim (Bool-cases (user_range_valid src 1)) [
          | inr refused ↦
              let outside : InUser src 1 → ⊥ =
                λ inside. false≢true (sym refused ∙ (user_range_valid_iff src 1).1 inside) in
              rw (running, room, refused) (inr (refl, inr (inr outside)))
          | inl accepted ↦
              let t = user_page_translate c.hhdm_offset pml4 4 c.vm in
              let paged = user_page_translate-IsPaged c.hhdm_offset pml4 4 c.vm aligned in
              let some_room : 0 < max_len = ground arith in
              rw (running, room, accepted)
                (inl (
                  pml4,
                  refl,
                  copy_string-TextOutcome t paged max_len src dst 0 max_len mem (omega arith)
                      some_room small (λ i p lt h. apart pml4 running i p (omega arith) h),
                ))
        ]
      ]
    ]
