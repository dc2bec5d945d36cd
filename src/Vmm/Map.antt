-- ===== src/Vmm/Map.antt =====
-- core/memory/vmm.c: mapping, unmapping and resolving one page.
use bomboclaat_os.Base.{
  ℕ, zero, ◌+◌, ◌-◌, ◌*◌, ◌/◌, ◌%◌, ◌^◌, Option, none, some, ◌==◌, if◌then◌else◌, bit_and, bit_or,
}
use bomboclaat_os.Base.Int.{ℤ, pos, minus_one}
use bomboclaat_os.Pmm.{pmm_alloc_frame}
use bomboclaat_os.Vmm.Table.{
  Vm, present, clear_flags, pml4_index, pdpt_index, pd_index, pt_index, put_entry, clear_table,
}

-- One of the three blocks of vmm_map_page: the table below entry `i` of the table at `t`. If there
-- is none, a cleared frame is put there; `none` is an allocation that failed.
unfoldable pub next_table : ℕ → ℕ → ℕ → Vm → Option (ℕ × Vm)
next_table t i perm_flags s =
    let e = s.entry t i in
    let (new_table, pmm') = pmm_alloc_frame s.pmm in
    let made = bit_or new_table perm_flags in
    let widened = bit_or e perm_flags in
    if present e
    then some (clear_flags widened, record s { entry = put_entry t i widened s.entry })
    else if new_table == 0
    then none
    else some (
      clear_flags made,
      record { pmm = pmm'; entry = put_entry t i made (clear_table new_table s.entry) },
    )

-- The entry that vmm_map_page writes: `phys | flags | VMM_PRESENT`.
abbrev pub leaf_entry : ℕ → ℕ → ℕ
leaf_entry phys flags = bit_or (bit_or phys flags) 1

unfoldable pub vmm_map_page : (pml4 virt phys flags : ℕ) → Vm → ℕ × Vm
unfolding next_table
vmm_map_page pml4 virt phys flags s =
    let perm_flags = flags % 4096 in
    elim (next_table pml4 (pml4_index virt) perm_flags s) [
      | none ↦ (1, s)
      | some (pdpt, s1) ↦ elim (next_table pdpt (pdpt_index virt) perm_flags s1) [
        | none ↦ (2, s1)
        | some (pd, s2) ↦ elim (next_table pd (pd_index virt) perm_flags s2) [
          | none ↦ (3, s2)
          | some (pt, s3) ↦ (
            0,
            record s3 { entry = put_entry pt (pt_index virt) (leaf_entry phys flags) s3.entry },
          )
        ]
      ]
    ]

-- The table that a present entry leads to.
unfoldable pub lower_table : ℕ → ℕ → Vm → Option ℕ
lower_table t i s = if present (s.entry t i) then some (clear_flags (s.entry t i)) else none

unfoldable pub vmm_unmap_page : (pml4 virt : ℕ) → Vm → ℤ × Vm
unfolding lower_table
vmm_unmap_page pml4 virt s = elim (lower_table pml4 (pml4_index virt) s) [
  | none ↦ (minus_one, s)
  | some pdpt ↦ elim (lower_table pdpt (pdpt_index virt) s) [
    | none ↦ (minus_one, s)
    | some pd ↦ elim (lower_table pd (pd_index virt) s) [
      | none ↦ (minus_one, s)
      | some pt ↦ (pos 0, record s { entry = put_entry pt (pt_index virt) 0 s.entry })
    ]
  ]
]

unfoldable pub vmm_remap_page : (pml4 virt phys flags : ℕ) → Vm → ℤ × Vm
vmm_remap_page pml4 virt phys flags s =
    let (unmapped, s1) = vmm_unmap_page pml4 virt s in
    let (mapped, s2) = vmm_map_page pml4 virt phys flags s1 in
    elim unmapped [
      | pos zero ↦ if mapped == 0 then (pos 0, s2) else (minus_one, s2)
      | _ ↦ (minus_one, s1)
    ]

-- `eff &= entry | ~(VMM_WRITE | VMM_USER)`
abbrev pub narrowed : ℕ → ℕ → ℕ
narrowed eff e = bit_and eff (bit_or e (2 ^ 64 - 1 - 6))

-- `(entry & 0xFFF & ~(VMM_WRITE | VMM_USER)) | eff`
abbrev pub flags_out : ℕ → ℕ → ℕ
flags_out e eff = bit_or (bit_and (bit_and e 0xFFF) (2 ^ 64 - 1 - 6)) eff

-- The last part of vmm_resolve, from the table of the lowest level.
unfoldable pub resolve_pt : ℕ → ℕ → ℕ → Vm → Option (ℕ × ℕ)
resolve_pt pt virt eff s =
    let e = s.entry pt (pt_index virt) in
    if present e then some (clear_flags e + virt % 4096, flags_out e (narrowed eff e)) else none

-- Pages of 2 MB end here: bit 7 is set.
unfoldable pub resolve_pd : ℕ → ℕ → ℕ → Vm → Option (ℕ × ℕ)
unfolding resolve_pt
resolve_pd pd virt eff s =
    let e = s.entry pd (pd_index virt) in
    let eff' = narrowed eff e in
    if present e
    then if e / 128 % 2 == 0
      then resolve_pt (clear_flags e) virt eff' s
      else some (e / 2 ^ 21 % 2 ^ 31 * 2 ^ 21 + virt % 2 ^ 21, flags_out e eff')
    else none

-- Pages of 1 GB end here.
unfoldable pub resolve_pdpt : ℕ → ℕ → ℕ → Vm → Option (ℕ × ℕ)
unfolding resolve_pd
resolve_pdpt pdpt virt eff s =
    let e = s.entry pdpt (pdpt_index virt) in
    let eff' = narrowed eff e in
    if present e
    then if e / 128 % 2 == 0
      then resolve_pd (clear_flags e) virt eff' s
      else some (e / 2 ^ 30 % 2 ^ 22 * 2 ^ 30 + virt % 2 ^ 30, flags_out e eff')
    else none

-- The physical address and the flags; `none` is the result -1.
unfoldable pub vmm_resolve : (pml4 virt : ℕ) → Vm → Option (ℕ × ℕ)
unfolding resolve_pdpt
vmm_resolve pml4 virt s =
    let e = s.entry pml4 (pml4_index virt) in
    if pml4 == 0
    then none
    else if present e
    then resolve_pdpt (clear_flags e) virt (bit_and e 6) s
    else none
