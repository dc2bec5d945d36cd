-- ===== src/Exec/Pages.antt =====
-- core/tasks/exec.c: the pages that elf_load maps.
use bomboclaat_os.Base.{
  ℕ, zero, suc, ◌+◌, ◌*◌, ◌/◌, ◌%◌, ◌^◌, ◌≤◌, ◌<◌, min, max, ◌≡◌, refl, sym, ◌∙◌, inl, inr, Option,
  none, some, ◌==◌, ==_iff, ==_false, ltb, if◌then◌else◌, Bool-cases, arith, subst,
}
use bomboclaat_os.Vmm.{Vm, vmm_resolve, vmm_map_page, leaf_entry}
use bomboclaat_os.Vmm.Tree.{AreFlags}
use bomboclaat_os.Vmm.Pages.{leaf, user_half, OnePage}
use bomboclaat_os.Vmm.Mapping.{IsSpace, vmm_map_page-MapOutcome}
use bomboclaat_os.UserMemory.{Machine, NewPage, mapped, no_frame, no_table, page_panic, new_page}
use bomboclaat_os.UserMemory.Space.{PageOutcome, new_page-PageOutcome}
use bomboclaat_os.UserMemory.Growing.{InPages}
use bomboclaat_os.Exec.Elf.{Phdr}
use bomboclaat_os.Exec.Flags.{IsNx, segment_flags-AreFlags, merged_flags-AreFlags}
use bomboclaat_os.Exec.Load.{
  segment_flags, merged_flags, Loading, loaded, out_of_memory, load_panic, fill_page, load_page,
  load_pages,
}

-- A page of the address space holds `v`.
abbrev pub IsMapped : ℕ → ℕ → Vm → Type 0
IsMapped root v s = (e : ℕ) × (leaf root v s ≡ some e)

-- No page is lost.
abbrev pub Keeps : ℕ → Vm → Vm → Type 0
Keeps root s s' = (v : ℕ) → v < user_half → IsMapped root v s → IsMapped root v s'

fill_page-vm :
    (elf : ℕ) (seg : Phdr) (va phys : ℕ) (m : Machine) → (fill_page elf seg va phys m).vm ≡ m.vm
fill_page-vm elf seg va phys m =
    elim (Bool-cases
      (ltb (max va seg.p_vaddr) (min (va + 4096) ((seg.p_vaddr + seg.p_filesz) % 2 ^ 64)))) [
        | inl some_bytes ↦ rw some_bytes refl
        | inr no_bytes ↦ rw no_bytes refl
      ]

-- What the loops leave when they come to their end: the pages from `va` on are there.
abbrev pub LoadOutcome : (root va count : ℕ) → Machine → Loading Machine → Type 0
LoadOutcome root va count m (loaded m') =
    IsSpace root m'.vm
    × Keeps root m.vm m'.vm
    × ((v : ℕ) → v < user_half → InPages va count v → IsMapped root v m'.vm)
LoadOutcome root va count m (out_of_memory m') = Unit
LoadOutcome root va count m load_panic = Unit

-- One page is mapped.
OnePage-LoadOutcome :
    (root va e : ℕ) (m m' : Machine)
    → va % 4096 ≡ 0
    → IsSpace root m'.vm
    → OnePage root va (some e) m.vm m'.vm
    → LoadOutcome root va 1 m (loaded m')
OnePage-LoadOutcome root va e m m' aligned space one = (
  space,
  (λ v h (old, was). elim (Bool-cases (v / 4096 == va / 4096)) [
    | inl here ↦ (e, one v h ∙ rw here refl)
    | inr other ↦ (old, one v h ∙ rw other was)
  ]),
  (λ v h (lo, hi).
      let here = (==_iff (v / 4096) (va / 4096)).1 (omega arith) in (e, one v h ∙ rw here refl)),
)

-- The bytes of a page change no table.
fill_page-LoadOutcome :
    (elf : ℕ) (seg : Phdr) (root va phys : ℕ) (m m' : Machine)
    → LoadOutcome root va 1 m (loaded m')
    → LoadOutcome root va 1 m (loaded (fill_page elf seg va phys m'))
fill_page-LoadOutcome elf seg root va phys m m' h =
    subst
      (λ (s : Vm).
        IsSpace root s
        × Keeps root m.vm s
        × ((v : ℕ) → v < user_half → InPages va 1 v → IsMapped root v s))
      (sym (fill_page-vm elf seg va phys m')) h

load_page-LoadOutcome :
    (nx elf root : ℕ) (seg : Phdr) (va : ℕ) (m : Machine)
    → IsNx nx
    → IsSpace root m.vm
    → va < user_half
    → va % 4096 ≡ 0
    → LoadOutcome root va 1 m (load_page nx elf root seg va m)
unfolding load_page
load_page-LoadOutcome nx elf root seg va m is_nx space user aligned = go (vmm_resolve root va m.vm)
  where
    fresh :
        (o : NewPage)
        → PageOutcome root va (segment_flags nx seg) m o
        → LoadOutcome root va 1 m (elim o [
          | mapped frame m' ↦ loaded (fill_page elf seg va frame m')
          | no_frame m' ↦ out_of_memory m'
          | no_table m' ↦ out_of_memory m'
          | page_panic ↦ load_panic
        ])
    fresh (mapped frame m') (space', free, low, one) =
        fill_page-LoadOutcome elf seg root va frame m m'
          (OnePage-LoadOutcome root va _ m m' aligned space' one)
    fresh (no_frame m') h = tt
    fresh (no_table m') h = tt
    fresh page_panic h = tt

    again :
        (frame flags : ℕ)
        → AreFlags (flags % 4096)
        → let r = vmm_map_page root va frame flags m.vm in
          LoadOutcome root va 1 m (
            if r.0 == 0
            then loaded (fill_page elf seg va frame (record m { vm = r.1 }))
            else out_of_memory (record m { vm = r.1 }))
    again frame flags f =
        let (space', outcome) = vmm_map_page-MapOutcome root va frame flags m.vm space user f in
        elim outcome [
          | inl (done, one) ↦
              let z = (==_iff _ _).1 done in
              rw z (
                fill_page-LoadOutcome elf seg root va frame m
                  (record m { vm = (vmm_map_page root va frame flags m.vm).1 })
                  (OnePage-LoadOutcome root va (leaf_entry frame flags) m
                    (record m { vm = (vmm_map_page root va frame flags m.vm).1 }) aligned space'
                    one))
          | inr (failed, _, _) ↦ let z = ==_false _ _ failed in rw z tt
        ]

    go :
        (o : Option (ℕ × ℕ))
        → LoadOutcome root va 1 m (elim o [
          | some (phys, old_flags) ↦
              let frame = phys / 4096 * 4096 in
              let (r, vm') =
                vmm_map_page root va frame (merged_flags old_flags (segment_flags nx seg)) m.vm in
              let m' = record m { vm = vm' } in
              if r == 0 then loaded (fill_page elf seg va frame m') else out_of_memory m'
          | none ↦ elim (new_page root va (segment_flags nx seg) m) [
            | mapped frame m' ↦ loaded (fill_page elf seg va frame m')
            | no_frame m' ↦ out_of_memory m'
            | no_table m' ↦ out_of_memory m'
            | page_panic ↦ load_panic
          ]
        ])
    go none = fresh (new_page root va (segment_flags nx seg) m) (
        new_page-PageOutcome root va (segment_flags nx seg) m space user
          (segment_flags-AreFlags nx seg is_nx))
    go (some (phys, old_flags)) =
        again (phys / 4096 * 4096) (merged_flags old_flags (segment_flags nx seg))
          (merged_flags-AreFlags old_flags (segment_flags nx seg))

LoadOutcome-step :
    (root va count : ℕ) (m m1 : Machine) (o : Loading Machine)
    → va % 4096 ≡ 0
    → LoadOutcome root va 1 m (loaded m1)
    → LoadOutcome root (va + 4096) count m1 o
    → LoadOutcome root va (suc count) m o
LoadOutcome-step root va count m m1 (loaded m') aligned (space1, keeps1, here)
      (space', keeps', rest) =
    (
      space',
      (λ v h was. keeps' v h (keeps1 v h was)),
      (λ v h (lo, hi). elim (Bool-cases (ltb v (va + 4096))) [
        | inl first ↦ keeps' v h (here v h (lo, ground arith))
        | inr later ↦ rest v h (ground arith, omega arith)
      ]),
    )
LoadOutcome-step root va count m m1 (out_of_memory m') aligned h h' = tt
LoadOutcome-step root va count m m1 load_panic aligned h h' = tt

pub load_pages-LoadOutcome :
    (count nx elf root : ℕ) (seg : Phdr) (va : ℕ) (m : Machine)
    → IsNx nx
    → IsSpace root m.vm
    → va % 4096 ≡ 0
    → va + count * 4096 ≤ user_half
    → LoadOutcome root va count m (load_pages nx elf root count seg va m)
unfolding load_pages
load_pages-LoadOutcome zero nx elf root seg va m is_nx space aligned below =
    (space, (λ v h was. was), (λ v h (lo, hi). absurd (omega arith)))
load_pages-LoadOutcome (suc count) nx elf root seg va m is_nx space aligned below =
    go (load_page nx elf root seg va m)
      (load_page-LoadOutcome nx elf root seg va m is_nx space (omega arith) aligned)
      (λ m1 space1.
        load_pages-LoadOutcome count nx elf root seg (va + 4096) m1 is_nx space1 (omega arith)
          (omega arith))
  where
    go :
        (o : Loading Machine)
        → LoadOutcome root va 1 m o
        → ((m1 : Machine)
            → IsSpace root m1.vm
            → LoadOutcome root
                (va + 4096)
                count
                m1
                (load_pages nx elf root count seg (va + 4096) m1))
        → LoadOutcome root va (suc count) m (elim o [
          | loaded m' ↦ load_pages nx elf root count seg (va + 4096) m'
          | out_of_memory m' ↦ out_of_memory m'
          | load_panic ↦ load_panic
        ])
    go (loaded m1) h rest =
        LoadOutcome-step root va count m m1 (load_pages nx elf root count seg (va + 4096) m1)
          aligned h (rest m1 h.0)
    go (out_of_memory m1) h rest = tt
    go load_panic h rest = tt
