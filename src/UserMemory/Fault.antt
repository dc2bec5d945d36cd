-- ===== src/UserMemory/Fault.antt =====
-- core/memory/pfault.c: user_pf; core/tasks/tasks.c: task_map_shared_regions.
use bomboclaat_os.Base.{
  ℕ, zero, suc, ◌+◌, ◌*◌, ◌/◌, ◌%◌, ◌^◌, not, ◌&&◌, Bool, true, false, Option, none, some, ◌==◌,
  ltb, leb, if◌then◌else◌,
}
use bomboclaat_os.Vmm.{Vm, Shared, vmm_map_page}
use bomboclaat_os.Userspace.{user_space_limit}
use bomboclaat_os.UserMemory.Fresh.{Machine, mapped, no_frame, no_table, page_panic, new_page}
use bomboclaat_os.UserMemory.Heap.{Mm, page_up}

-- The result and the machine; `none` is a panic.
unfoldable pub user_pf : (pml4 error_code addr : ℕ) → Mm → Machine → Option (ℕ × Machine)
user_pf pml4 error_code addr mm m =
    if not (error_code % 2 == 0)
    then some (1, m)
    else if leb user_space_limit addr
    then some (2, m)
    else if ltb addr mm.stack_start && leb mm.stack_limit addr
    then elim (new_page pml4 (addr / 4096 * 4096) 7 m) [
      | mapped frame m' ↦ some (0, m')
      | no_frame m' ↦ some (3, m')
      | no_table m' ↦ some (4, m')
      | page_panic ↦ none
    ]
    else some (5, m)

abbrev pub user_fb_virt : ℕ
user_fb_virt = 0x00007FFF00000000

abbrev pub user_sigtramp_virt : ℕ
user_sigtramp_virt = 0x00007FFE00000000

-- The loop over the pages of the frame buffer: whether it went well.
unfoldable pub map_frame_buffer : (rounds pml4 fb_base offset : ℕ) → Vm → Bool × Vm
map_frame_buffer zero pml4 fb_base offset s = (true, s)
map_frame_buffer (suc rounds) pml4 fb_base offset s =
    let (r, s') = vmm_map_page pml4 (user_fb_virt + offset) ((fb_base + offset) % 2 ^ 64) 7 s in
    if r == 0 then map_frame_buffer rounds pml4 fb_base (offset + 4096) s' else (false, s')

-- `false` is -ENOMEM.
unfoldable pub task_map_shared_regions : Shared → (pml4 : ℕ) → Vm → Bool × Vm
unfolding map_frame_buffer
task_map_shared_regions g pml4 s =
    let (ok, s1) =
      map_frame_buffer (page_up g.fbf_size / 4096) pml4 (g.fbf_phys / 4096 * 4096) 0 s in
    let (r, s2) = vmm_map_page pml4 user_sigtramp_virt g.sigtramp_phys 5 s1 in
    if ok then (r == 0, s2) else (false, s1)
