-- ===== src/Vmm/Tests.antt =====
-- core/memory/vmm.c: an address space in a machine of sixteen frames.
use bomboclaat_os.Base.{◌+◌, ◌/◌, ◌%◌, ◌≡◌, refl, some, [], ◌∷◌, ◌==◌, if◌then◌else◌, arith}
use bomboclaat_os.Base.Int.{minus_one}
use bomboclaat_os.Base.Bits.{bit_at}
use bomboclaat_os.Pmm.{is_used, bitmap_set, take_frame, alloc_loop, pmm_alloc_frame}
use bomboclaat_os.Vmm.Table.{Vm}
use bomboclaat_os.Vmm.Map.{
  next_table, vmm_map_page, lower_table, vmm_unmap_page, vmm_resolve, resolve_pt, resolve_pd,
  resolve_pdpt,
}
use bomboclaat_os.Vmm.Space.{vmm_init}
use bomboclaat_os.Vmm.Mapping.{MapOutcome, vmm_map_page-MapOutcome}
use bomboclaat_os.Vmm.Unmap.{UnmapOutcome, vmm_unmap_page-UnmapOutcome}
use bomboclaat_os.Vmm.Resolve.{resolved, vmm_resolve-vmm_map_page}
use bomboclaat_os.Vmm.Init.{InitOutcome, vmm_init-InitOutcome}
use bomboclaat_os.Vmm.Sample.{bare, sixteen-IsValid, bare-IsSpace, seven-AreFlags}

abbrev mapped : Vm
mapped = (vmm_map_page 12288 0x401000 40960 7 bare).1

map_takes_three_tables : (mapped.pmm.bitmap) ≡ 63 ∷ 0 ∷ []
unfolding vmm_map_page next_table pmm_alloc_frame alloc_loop take_frame is_used bitmap_set bit_at
map_takes_three_tables = refl

map_then_resolve : vmm_resolve 12288 0x401234 mapped ≡ some (0xA234, 7)
unfolding vmm_resolve resolve_pdpt resolve_pd resolve_pt vmm_map_page next_table pmm_alloc_frame
    alloc_loop take_frame is_used bitmap_set bit_at
map_then_resolve = refl

map_returns_0 : (vmm_map_page 12288 0x401000 40960 7 bare).0 ≡ 0
unfolding vmm_map_page next_table pmm_alloc_frame alloc_loop take_frame is_used bitmap_set bit_at
map_returns_0 = refl

unmap_nothing : (vmm_unmap_page 12288 0x401000 bare).0 ≡ minus_one
unfolding vmm_unmap_page lower_table
unmap_nothing = refl

vmm_map_page-MapOutcome_example :
    MapOutcome 12288 0x401000 40960 7 bare (vmm_map_page 12288 0x401000 40960 7 bare)
vmm_map_page-MapOutcome_example =
    vmm_map_page-MapOutcome 12288 0x401000 40960 7 bare bare-IsSpace (omega arith) seven-AreFlags

vmm_unmap_page-UnmapOutcome_example :
    UnmapOutcome 12288 0x401000 mapped (vmm_unmap_page 12288 0x401000 mapped)
vmm_unmap_page-UnmapOutcome_example =
    vmm_unmap_page-UnmapOutcome 12288 0x401000 mapped vmm_map_page-MapOutcome_example.0
      (omega arith)

vmm_resolve-vmm_map_page_example : resolved (vmm_resolve 12288 0x401234 mapped) ≡ (
    if 0x401234 / 4096 == 0x401000 / 4096
    then some (40960 + 0x401234 % 4096)
    else resolved (vmm_resolve 12288 0x401234 bare))
vmm_resolve-vmm_map_page_example =
    vmm_resolve-vmm_map_page 12288 0x401000 40960 7 bare bare-IsSpace (λ e. omega arith)
      (omega arith) seven-AreFlags refl (omega arith) refl map_returns_0 0x401234 (omega arith)

vmm_init-InitOutcome_example : InitOutcome 4096 bare (vmm_init 4096 bare)
vmm_init-InitOutcome_example =
    vmm_init-InitOutcome 4096 bare sixteen-IsValid (omega arith) (omega arith)
