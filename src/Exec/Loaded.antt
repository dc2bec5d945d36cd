-- ===== src/Exec/Loaded.antt =====
-- core/tasks/exec.c: a program that elf_validate accepted, in memory.
use bomboclaat_os.Base.{ℕ, ◌-◌, ◌%◌, ◌^◌, ◌≤◌, ◌<◌, ◌≡◌, true, arith}
use bomboclaat_os.Memtools.{Mem}
use bomboclaat_os.Vmm.Mapping.{IsSpace}
use bomboclaat_os.UserMemory.{Machine, page_up}
use bomboclaat_os.UserMemory.Break.{IsHeap}
use bomboclaat_os.Exec.Elf.{ehdr, is_load}
use bomboclaat_os.Exec.Validate.{user_image_limit}
use bomboclaat_os.Exec.Program.{segment, IsProgram}
use bomboclaat_os.Exec.Load.{
  Layout, Loading, loaded, out_of_memory, load_panic, finish_layout, elf_load,
}
use bomboclaat_os.Exec.Flags.{IsNx}
use bomboclaat_os.Exec.Walk.{last_end, InMemory, SegmentsOutcome, load_segments-SegmentsOutcome}

-- What elf_load may return.
abbrev pub LoadedOutcome : (elf root : ℕ) → Mem → Loading (Layout × Machine) → Type 0
LoadedOutcome elf root mem (loaded (mm, m')) =
    IsSpace root m'.vm
    × ((i : ℕ)
        → i < (ehdr elf mem).e_phnum
        → is_load (segment elf mem i) ≡ true
        → InMemory root mm.brk_start (segment elf mem i) m'.vm)
    × (mm.brk_start % 4096 ≡ 0)
    × IsHeap (record { brk_start = mm.brk_start; brk = mm.brk; stack_start = 0; stack_limit = 0 })
LoadedOutcome elf root mem (out_of_memory m') = Unit
LoadedOutcome elf root mem load_panic = Unit

-- If elf_load returns 0 for a file that elf_validate accepts, in an address space that is a tree,
-- then each address of each loaded segment is in a page, the heap begins at the border of a page
-- behind all segments, with room for its greatest size, and the tables form a tree again.
pub elf_load-LoadedOutcome :
    (nx elf size root : ℕ) (mm : Layout) (m : Machine)
    → IsProgram elf size m.mem
    → IsNx nx
    → IsSpace root m.vm
    → LoadedOutcome elf root m.mem (elf_load nx elf root mm m)
unfolding elf_load
elf_load-LoadedOutcome nx elf size root mm m program is_nx space = go _ (
    load_segments-SegmentsOutcome nx elf root size (segment elf m.mem) is_nx
      (ehdr elf m.mem).e_phnum 0
      (record mm { code_start = 2 ^ 64 - 1; code_end = 0; data_start = 2 ^ 64 - 1; data_end = 0 }) m
      (λ j lo hi load. program.segments j (omega arith) load) space)
  where
    go :
        (o : Loading (Layout × Machine))
        → SegmentsOutcome root
            (segment elf m.mem)
            (ehdr elf m.mem).e_phnum
            0
            (record mm {
              code_start = 2 ^ 64 - 1;
              code_end = 0;
              data_start = 2 ^ 64 - 1;
              data_end = 0;
            })
            m
            o
        → LoadedOutcome elf root m.mem (elim o [
          | loaded (mm', m') ↦ loaded (finish_layout mm', m')
          | out_of_memory m' ↦ out_of_memory m'
          | load_panic ↦ load_panic
        ])
    go (loaded (mm', m')) (space', keeps, more, limit, all) =
        let small : last_end mm' ≤ user_image_limit = limit (omega arith) in
        let up : last_end mm' ≤ page_up (last_end mm') = omega arith in
        let capped : page_up (last_end mm') ≤ user_image_limit = omega arith in
        (
          space',
          (λ i lt load.
              let (below, there) = all i (omega arith) (omega arith) load in (omega arith, there)),
          omega arith,
          record { above = omega arith; below = omega arith; half = omega arith },
        )
    go (out_of_memory m') h = tt
    go load_panic h = tt
