-- ===== src/UserMemory/Fresh.antt =====
-- core/memory/pmm.c and core/tasks/tasks.c: a cleared frame, and the block that maps one.
use bomboclaat_os.Base.{
  ℕ, zero, suc, ◌+◌, ◌*◌, ◌/◌, ◌%◌, ◌^◌, Option, none, some, ◌==◌, if◌then◌else◌,
}
use bomboclaat_os.Memtools.{Mem, memset}
use bomboclaat_os.Pmm.{pmm_alloc_frame}
use bomboclaat_os.Vmm.{Vm, vmm_map_page, vmm_unmap_page, vmm_resolve, free_frame}

-- The tables and the frames, the memory, and where the kernel sees physical address 0.
pub record Machine : Type 0 where
  pub hhdm_offset : ℕ
  pub vm : Vm
  pub mem : Mem

-- The frame's address, 0 for null.
unfoldable pub pmm_alloc_frame_zeroed : Machine → ℕ × Machine
pmm_alloc_frame_zeroed m =
    let (phys, pmm') = pmm_alloc_frame m.vm.pmm in
    let vm' = record m.vm { pmm = pmm' } in
    if phys == 0
    then (0, record m { vm = vm' })
    else (phys, record m { vm = vm'; mem = memset ((phys + m.hhdm_offset) % 2 ^ 64) 0 4096 m.mem })

pub data NewPage : Type 0 where
  mapped : (frame : ℕ) → Machine → NewPage
  no_frame : Machine → NewPage
  no_table : Machine → NewPage
  page_panic : NewPage

-- `pmm_free_frame(frame)`, before the function returns; it may panic.
abbrev pub given_back : Machine → Option Vm → NewPage
given_back m none = page_panic
given_back m (some vm') = no_table (record m { vm = vm' })

-- A cleared frame is mapped at `va`, or given back if that fails.
unfoldable pub new_page : (pml4 va flags : ℕ) → Machine → NewPage
unfolding pmm_alloc_frame_zeroed
new_page pml4 va flags m =
    let (frame, m1) = pmm_alloc_frame_zeroed m in
    let (r, vm2) = vmm_map_page pml4 va frame flags m1.vm in
    if frame == 0
    then no_frame m1
    else if r == 0
    then mapped frame (record m1 { vm = vm2 })
    else given_back m1 (free_frame frame vm2)

-- The body of the loops of task_sbrk that take a page away; `none` is a panic.
unfoldable pub drop_page : (pml4 va : ℕ) → Machine → Option Machine
drop_page pml4 va m = elim (vmm_resolve pml4 va m.vm) [
  | none ↦ some m
  | some (phys, flags) ↦
      let (r, vm1) = vmm_unmap_page pml4 va m.vm in
      elim (free_frame (phys / 4096 * 4096) vm1) [
        | none ↦ none
        | some vm2 ↦ some (record m { vm = vm2 })
      ]
]

unfoldable pub drop_pages : (rounds pml4 va : ℕ) → Machine → Option Machine
unfolding drop_page
drop_pages zero pml4 va m = some m
drop_pages (suc rounds) pml4 va m = elim (drop_page pml4 va m) [
  | none ↦ none
  | some m' ↦ drop_pages rounds pml4 (va + 4096) m'
]
