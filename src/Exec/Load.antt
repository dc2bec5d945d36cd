-- ===== src/Exec/Load.antt =====
-- core/tasks/exec.c: elf_load. The file lies apart from the frames that are written, so that its
-- segments, the values of `ph`, stay as they are.
use bomboclaat_os.Base.{
  ℕ, zero, suc, ◌+◌, ◌-◌, ◌*◌, ◌/◌, ◌%◌, ◌^◌, min, max, none, some, ◌==◌, ltb, if◌then◌else◌,
  bit_or,
}
use bomboclaat_os.Memtools.{memcpy}
use bomboclaat_os.Vmm.{vmm_resolve, vmm_map_page}
use bomboclaat_os.UserMemory.{Machine, mapped, no_frame, no_table, page_panic, new_page, page_up}
use bomboclaat_os.Exec.Elf.{Phdr, phdr, ehdr, executable, is_load}

-- The fields of `mm_t` that elf_load sets.
pub record Layout : Type 0 where
  pub code_start : ℕ
  pub code_end : ℕ
  pub data_start : ℕ
  pub data_end : ℕ
  pub brk_start : ℕ
  pub brk : ℕ

abbrev pub uintptr_max : ℕ
uintptr_max = 2 ^ 64 - 1

-- `flags & VMM_WRITE`
abbrev pub write_bit : ℕ → ℕ
write_bit flags = flags / 2 % 2 * 2

-- The flags of a segment's pages; `nx` is the result of nx_flag.
abbrev pub segment_flags : ℕ → Phdr → ℕ
segment_flags nx seg =
    bit_or (bit_or 5 (if seg.p_flags / 2 % 2 == 0 then 0 else 2)) (if executable seg then 0 else nx)

-- The flags of a page that two segments share.
abbrev pub merged_flags : ℕ → ℕ → ℕ
merged_flags old_flags flags = bit_or (bit_or 5 (write_bit old_flags)) (write_bit flags)

-- What becomes of a page, and of the loops over pages and segments.
pub data Loading {ℓ} (A : Type ℓ) : Type ℓ where
  loaded : A → Loading A
  out_of_memory : Machine → Loading A
  load_panic : Loading A

-- The last part of the inner body: the file's bytes of the page at `va`, whose frame is `phys`.
abbrev pub fill_page : (elf : ℕ) → Phdr → (va phys : ℕ) → Machine → Machine
fill_page elf seg va phys m =
    let lo = max va seg.p_vaddr in
    let hi = min (va + 4096) ((seg.p_vaddr + seg.p_filesz) % 2 ^ 64) in
    let kvirt = (phys + m.hhdm_offset) % 2 ^ 64 in
    if ltb lo hi
    then record m {
      mem = memcpy (kvirt + (lo - va)) (elf + seg.p_offset + (lo - seg.p_vaddr)) (hi - lo) m.mem;
    }
    else m

-- The inner body.
unfoldable pub load_page : (nx elf pml4 : ℕ) → Phdr → ℕ → Machine → Loading Machine
load_page nx elf pml4 seg va m =
    let flags = segment_flags nx seg in
    elim (vmm_resolve pml4 va m.vm) [
      | some (phys, old_flags) ↦
          let frame = phys / 4096 * 4096 in
          let (r, vm') = vmm_map_page pml4 va frame (merged_flags old_flags flags) m.vm in
          let m' = record m { vm = vm' } in
          if r == 0 then loaded (fill_page elf seg va frame m') else out_of_memory m'
      | none ↦ elim (new_page pml4 va flags m) [
        | mapped frame m' ↦ loaded (fill_page elf seg va frame m')
        | no_frame m' ↦ out_of_memory m'
        | no_table m' ↦ out_of_memory m'
        | page_panic ↦ load_panic
      ]
    ]

-- The loop over the pages of a segment, with `rounds` of them left.
unfoldable pub load_pages : (nx elf pml4 rounds : ℕ) → Phdr → ℕ → Machine → Loading Machine
unfolding load_page
load_pages nx elf pml4 zero seg va m = loaded m
load_pages nx elf pml4 (suc rounds) seg va m = elim (load_page nx elf pml4 seg va m) [
  | loaded m' ↦ load_pages nx elf pml4 rounds seg (va + 4096) m'
  | out_of_memory m' ↦ out_of_memory m'
  | load_panic ↦ load_panic
]

-- The bounds of code and data, widened by a segment.
abbrev pub widen : Phdr → Layout → Layout
widen seg mm =
    let seg_end = (seg.p_vaddr + seg.p_memsz) % 2 ^ 64 in
    if executable seg
    then record mm {
      code_start = min seg.p_vaddr mm.code_start;
      code_end = max seg_end mm.code_end;
    }
    else record mm {
      data_start = min seg.p_vaddr mm.data_start;
      data_end = max seg_end mm.data_end;
    }

-- The number of pages from `first` to `last`.
abbrev pub page_count : Phdr → ℕ
page_count seg = (page_up ((seg.p_vaddr + seg.p_memsz) % 2 ^ 64) - seg.p_vaddr / 4096 * 4096) / 4096

-- The loop over the segments, with `rounds` of them left.
unfoldable pub load_segments :
    (nx elf pml4 : ℕ) → (ℕ → Phdr) → (rounds i : ℕ) → Layout → Machine → Loading (Layout × Machine)
unfolding load_pages
load_segments nx elf pml4 ph zero i mm m = loaded (mm, m)
load_segments nx elf pml4 ph (suc rounds) i mm m =
    elim (if is_load (ph i)
      then load_pages nx elf pml4 (page_count (ph i)) (ph i) ((ph i).p_vaddr / 4096 * 4096) m
      else loaded m) [
        | loaded m' ↦
            load_segments nx elf pml4 ph rounds (i + 1)
              (if is_load (ph i) then widen (ph i) mm else mm) m'
        | out_of_memory m' ↦ out_of_memory m'
        | load_panic ↦ load_panic
      ]

-- The part behind the loop.
abbrev pub finish_layout : Layout → Layout
finish_layout mm =
    let brk_start = page_up (max mm.code_end mm.data_end) in
    record mm {
      code_start = (if mm.code_start == uintptr_max then 0 else mm.code_start);
      data_start = (if mm.data_start == uintptr_max then 0 else mm.data_start);
      brk_start = brk_start;
      brk = brk_start;
    }

-- `out_of_memory` is -ENOMEM.
unfoldable pub elf_load : (nx elf pml4 : ℕ) → Layout → Machine → Loading (Layout × Machine)
unfolding load_segments
elf_load nx elf pml4 mm m =
    let eh = ehdr elf m.mem in
    let start = record mm {
      code_start = uintptr_max;
      code_end = 0;
      data_start = uintptr_max;
      data_end = 0;
    } in
    elim (load_segments nx elf pml4 (phdr (elf + eh.e_phoff) m.mem) eh.e_phnum 0 start m) [
      | loaded (mm', m') ↦ loaded (finish_layout mm', m')
      | out_of_memory m' ↦ out_of_memory m'
      | load_panic ↦ load_panic
    ]
