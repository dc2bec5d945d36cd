-- ===== src/Userspace/Text.antt =====
-- core/memory/userspace.c: copy_string_from_user.
use bomboclaat_os.Base.{
  ℕ, zero, suc, ◌+◌, ◌-◌, ◌%◌, ◌^◌, Bool, true, false, not, ◌||◌, Option, none, some, ◌==◌, ltb,
  leb, if◌then◌else◌,
}
use bomboclaat_os.Base.Int.{ℤ, pos, minus_one, to_int}
use bomboclaat_os.Memtools.{Mem, store_byte}
use bomboclaat_os.Userspace.Copy.{
  Context, user_space_limit, user_range_valid, user_page_translate, page_rest,
}

-- The inner loop, with `rounds` bytes of the page to go: whether the end of the string came,
-- `copied`, and the memory.
unfoldable pub copy_chunk : (rounds kptr dst copied max_len : ℕ) → Mem → Bool × ℕ × Mem
copy_chunk zero kptr dst copied max_len mem = (false, copied, mem)
copy_chunk (suc rounds) kptr dst copied max_len mem =
    let mem' = store_byte (dst + copied) (mem kptr) mem in
    let rest = copy_chunk rounds (kptr + 1) dst (copied + 1) max_len mem' in
    if ltb copied max_len
    then (if mem kptr == 0 then (true, copied + 1, mem') else rest)
    else (false, copied, mem)

-- The outer loop.
unfoldable pub copy_string : (ℕ → Option ℕ) → (rounds va dst copied max_len : ℕ) → Mem → ℤ × Mem
unfolding copy_chunk
copy_string translate zero va dst copied max_len mem =
    (minus_one, store_byte (dst + (max_len - 1)) 0 mem)
copy_string translate (suc rounds) va dst copied max_len mem =
    if not (ltb copied max_len)
    then (minus_one, store_byte (dst + (max_len - 1)) 0 mem)
    else elim (if leb user_space_limit va then none else translate va) [
      | none ↦ (minus_one, mem)
      | some kptr ↦
          let (ended, copied', mem') = copy_chunk (page_rest va) kptr dst copied max_len mem in
          elim ended [
            | true ↦ (to_int (pos (copied' - 1)), mem')
            | false ↦
                copy_string translate rounds ((va + page_rest va) % 2 ^ 64) dst copied' max_len mem'
          ]
    ]

-- Each round but the last copies a byte at least.
unfoldable pub copy_string_from_user : Context → (dst src max_len : ℕ) → Mem → ℤ × Mem
unfolding copy_string
copy_string_from_user c dst src max_len mem = elim c.current_pml4 [
  | none ↦ (minus_one, mem)
  | some pml4 ↦
      if (max_len == 0) || not (user_range_valid src 1)
      then (minus_one, mem)
      else copy_string (user_page_translate c.hhdm_offset pml4 4 c.vm) max_len src dst 0 max_len mem
]
