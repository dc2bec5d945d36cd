-- ===== src/Userspace/Copy.antt =====
-- core/memory/userspace.c: the range test, the translation of an address, and the two copies.
use bomboclaat_os.Base.{
  ℕ, zero, suc, ◌+◌, ◌-◌, ◌%◌, ◌^◌, min, Bool, true, false, not, ◌||◌, Option, none, some, ◌==◌,
  ltb, leb, if◌then◌else◌, bit_and,
}
use bomboclaat_os.Base.Int.{ℤ, pos, minus_one}
use bomboclaat_os.Memtools.{Mem, memcpy}
use bomboclaat_os.Vmm.{Vm, vmm_resolve}

abbrev pub user_min_addr : ℕ
user_min_addr = 0x1000

abbrev pub user_space_limit : ℕ
user_space_limit = 0x800000000000

-- What the functions read: the offset of the kernel's view of physical memory, the pml4 of
-- `current_task`, `none` if that is null, and the tables.
pub record Context : Type 0 where
  pub hhdm_offset : ℕ
  pub current_pml4 : Option ℕ
  pub vm : Vm

unfoldable pub user_range_valid : (addr len : ℕ) → Bool
user_range_valid addr len =
    if len == 0
    then true
    else if ltb addr user_min_addr || leb user_space_limit addr
    then false
    else not (ltb (user_space_limit - addr) len)

-- `kptr`, or `none` for -1.
unfoldable pub user_page_translate : (hhdm pml4 need_flags : ℕ) → Vm → ℕ → Option ℕ
user_page_translate hhdm pml4 need_flags vm addr = elim (vmm_resolve pml4 addr vm) [
  | none ↦ none
  | some (phys, flags) ↦
      if bit_and flags need_flags == need_flags then some ((phys + hhdm) % 2 ^ 64) else none
]

-- The bytes up to the end of the page: `PAGE_SIZE - (va & (PAGE_SIZE - 1))`.
abbrev pub page_rest : ℕ → ℕ
page_rest va = 4096 - va % 4096

module _ (translate : ℕ → Option ℕ) where
  -- The loop of copy_to_user, with user_page_translate for its flags.
  unfoldable pub copy_to_loop : (rounds va from len : ℕ) → Mem → ℤ × Mem
  copy_to_loop zero va from len mem = (pos 0, mem)
  copy_to_loop (suc rounds) va from len mem =
      let chunk = min (page_rest va) len in
      if len == 0 then (pos 0, mem) else elim (translate va) [
        | none ↦ (minus_one, mem)
        | some kptr ↦
            copy_to_loop rounds ((va + chunk) % 2 ^ 64) (from + chunk) (len - chunk)
              (memcpy kptr from chunk mem)
      ]

  -- The loop of copy_from_user.
  unfoldable pub copy_from_loop : (rounds va to len : ℕ) → Mem → ℤ × Mem
  copy_from_loop zero va to len mem = (pos 0, mem)
  copy_from_loop (suc rounds) va to len mem =
      let chunk = min (page_rest va) len in
      if len == 0 then (pos 0, mem) else elim (translate va) [
        | none ↦ (minus_one, mem)
        | some kptr ↦
            copy_from_loop rounds ((va + chunk) % 2 ^ 64) (to + chunk) (len - chunk)
              (memcpy to kptr chunk mem)
      ]

-- Each round copies a byte at least.
unfoldable pub copy_to_user : Context → (dst src len : ℕ) → Mem → ℤ × Mem
unfolding copy_to_loop
copy_to_user c dst src len mem = elim c.current_pml4 [
  | none ↦ (minus_one, mem)
  | some pml4 ↦
      if not (user_range_valid dst len)
      then (minus_one, mem)
      else copy_to_loop (user_page_translate c.hhdm_offset pml4 6 c.vm) len dst src len mem
]

unfoldable pub copy_from_user : Context → (dst src len : ℕ) → Mem → ℤ × Mem
unfolding copy_from_loop
copy_from_user c dst src len mem = elim c.current_pml4 [
  | none ↦ (minus_one, mem)
  | some pml4 ↦
      if not (user_range_valid src len)
      then (minus_one, mem)
      else copy_from_loop (user_page_translate c.hhdm_offset pml4 4 c.vm) len src dst len mem
]
