-- ===== src/Vmm/Space.antt =====
-- core/memory/vmm.c: whole address spaces. The upper half of every pml4 is the kernel's.
use bomboclaat_os.Base.{
  ℕ, zero, suc, ◌+◌, ◌*◌, ◌/◌, ◌%◌, ◌^◌, Bool, true, false, not, ◌&&◌, ◌||◌, Option, none, some,
  ◌==◌, ltb, leb, if◌then◌else◌,
}
use bomboclaat_os.Pmm.{
  pmm_alloc_frame, freed, already_free, panic_unaligned, panic_too_high, pmm_free_frame,
}
use bomboclaat_os.Vmm.Table.{Tables, Vm, present, clear_flags, vmm_nx}
use bomboclaat_os.Vmm.Map.{vmm_map_page}

-- The two loops over the entries of a new pml4.
abbrev pub kernel_half : ℕ → ℕ → Tables → Tables
kernel_half new from entry u j =
    if u == new then (if ltb j 256 then 0 else entry from j) else entry u j

-- A null result is `none`.
unfoldable pub vmm_init : (kernel_pml4 : ℕ) → Vm → Option (ℕ × Vm)
vmm_init kernel_pml4 s =
    let (new, pmm') = pmm_alloc_frame s.pmm in
    if new == 0
    then none
    else some (new, record { pmm = pmm'; entry = kernel_half new kernel_pml4 s.entry })

-- pmm_free_frame, with `none` for a panic.
unfoldable pub free_frame : ℕ → Vm → Option Vm
free_frame phys s = elim (pmm_free_frame phys s.pmm) [
  | freed p ↦ some (record s { pmm = p })
  | already_free p ↦ some (record s { pmm = p })
  | panic_unaligned ↦ none
  | panic_too_high ↦ none
]

-- What vmm_is_shared_frame (core/tasks/tasks.c) reads: the frame of the signal trampoline, and where
-- the frame buffer lies.
pub record Shared : Type 0 where
  pub sigtramp_phys : ℕ
  pub fbf_phys : ℕ
  pub fbf_size : ℕ

unfoldable pub vmm_is_shared_frame : Shared → ℕ → Bool
vmm_is_shared_frame g phys =
    let page = phys / 4096 * 4096 in
    (not (g.sigtramp_phys == 0) && (page == g.sigtramp_phys))
    || (not (g.fbf_size == 0)
        && (leb (g.fbf_phys / 4096 * 4096) page && ltb page ((g.fbf_phys + g.fbf_size) % 2 ^ 64)))

module _ (shared : ℕ → Bool) where
  -- The loops of vmm_free over the tables, by level: what lies below entry `i` of a table, where
  -- level 0 is the lowest. `rounds` entries are left.
  unfoldable pub free_below : (level : ℕ) → (rounds : ℕ) → (i t : ℕ) → Vm → Option Vm
  free_below level zero i t s = some s
  free_below zero (suc rounds) i t s =
      let e = s.entry t i in
      let phys = clear_flags e in
      elim (if present e && not (shared phys) then free_frame phys s else some s) [
        | none ↦ none
        | some s' ↦ free_below zero rounds (i + 1) t s'
      ]
  free_below (suc level) (suc rounds) i t s =
      let e = s.entry t i in
      elim (if present e then free_below level 512 0 (clear_flags e) s else some s) [
        | none ↦ none
        | some s' ↦ elim (if present e then free_frame (clear_flags e) s' else some s') [
          | none ↦ none
          | some s'' ↦ free_below (suc level) rounds (i + 1) t s''
        ]
      ]

  unfoldable pub vmm_free : (kernel_pml4 : ℕ) → ℕ → Vm → Option Vm
  unfolding free_below
  vmm_free kernel_pml4 pml4 s =
      if (pml4 == 0) || (pml4 == kernel_pml4)
      then some s
      else elim (free_below 3 256 0 pml4 s) [ none ↦ none | some s' ↦ free_frame pml4 s' ]

-- vmm_copy_frame, as far as the words are those of a table: the bytes of pages are not part of Vm.
abbrev pub copy_frame : ℕ → ℕ → Tables → Tables
copy_frame dst src entry u j = if u == dst then entry src j else entry u j

module _ (shared : ℕ → Bool) where
  -- The innermost body of vmm_clone_user_space, for the present entry `e` of the page `virt`:
  -- whether it went well, and the state; `none` is a panic.
  unfoldable pub clone_page : (child virt e : ℕ) → Vm → Option (Bool × Vm)
  clone_page child virt e s =
      let phys = clear_flags e in
      let flags = e % 4096 + e / vmm_nx % 2 * vmm_nx in
      let (r, same) = vmm_map_page child virt phys flags s in
      let (copy, pmm') = pmm_alloc_frame s.pmm in
      let s1 : Vm = record { pmm = pmm'; entry = copy_frame copy phys s.entry } in
      let (r', s2) = vmm_map_page child virt copy flags s1 in
      if shared phys
      then some (r == 0, same)
      else if copy == 0
      then some (false, s)
      else if r' == 0
      then some (true, s2)
      else elim (free_frame copy s2) [ none ↦ none | some s3 ↦ some (false, s3) ]

  -- The nested loops, by level: `page` is the number of the first page below entry `i` of the
  -- table at `t`.
  unfoldable pub clone_below :
      (level : ℕ) → (rounds : ℕ) → (i t child page : ℕ) → Vm → Option (Bool × Vm)
  unfolding clone_page
  clone_below level zero i t child page s = some (true, s)
  clone_below zero (suc rounds) i t child page s =
      let e = s.entry t i in
      elim (if present e then clone_page child (page * 4096) e s else some (true, s)) [
        | none ↦ none
        | some (false, s') ↦ some (false, s')
        | some (true, s') ↦ clone_below zero rounds (i + 1) t child (page + 1) s'
      ]
  clone_below (suc level) (suc rounds) i t child page s =
      let e = s.entry t i in
      elim (if present e
        then clone_below level 512 0 (clear_flags e) child page s
        else some (true, s)) [
          | none ↦ none
          | some (false, s') ↦ some (false, s')
          | some (true, s') ↦
              clone_below (suc level) rounds (i + 1) t child (page + 512 ^ (suc level)) s'
        ]

  -- The child's pml4, 0 for null; `none` is a panic.
  unfoldable pub vmm_clone_user_space : (kernel_pml4 : ℕ) → ℕ → Vm → Option (ℕ × Vm)
  unfolding vmm_init clone_below
  vmm_clone_user_space kernel_pml4 parent s =
      if parent == 0 then some (0, s) else elim (vmm_init kernel_pml4 s) [
        | none ↦ some (0, s)
        | some (child, s1) ↦ elim (clone_below 3 256 0 parent child 0 s1) [
          | none ↦ none
          | some (true, s2) ↦ some (child, s2)
          | some (false, s2) ↦ elim (vmm_free shared kernel_pml4 child s2) [
            | none ↦ none
            | some s3 ↦ some (0, s3)
          ]
        ]
      ]

-- The value of the register CR3 is an argument.
unfoldable pub vmm_init_kernel : (cr3 : ℕ) → Vm → Option (ℕ × Vm)
vmm_init_kernel cr3 s =
    let (new, pmm') = pmm_alloc_frame s.pmm in
    if new == 0
    then none
    else some (new, record { pmm = pmm'; entry = kernel_half new cr3 s.entry })
