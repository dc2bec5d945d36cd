-- ===== src/Vmm/Unmap.antt =====
-- core/memory/vmm.c: vmm_unmap_page on the pages of an address space.
use bomboclaat_os.Base.{
  ℕ, ◌+◌, ◌*◌, ◌<◌, ◌≡◌, refl, ◌⊎◌, inl, inr, false, Option, none, some, Bool-cases, arith,
}
use bomboclaat_os.Base.Int.{ℤ, pos, minus_one}
use bomboclaat_os.Vmm.Table.{Vm, present, pml4_index, pdpt_index, pd_index, pt_index, put_entry}
use bomboclaat_os.Vmm.Map.{lower_table, vmm_unmap_page}
use bomboclaat_os.Vmm.Tree.{Role, IsUser, IsTree}
use bomboclaat_os.Vmm.Pages.{leaf, user_half, Leads, leaf_IsTree, OnePage, leaf-OnePage}
use bomboclaat_os.Vmm.Mapping.{IsSpace}

-- What vmm_unmap_page leaves: the page is gone, or there was no table for it and nothing changes.
abbrev pub UnmapOutcome : (root virt : ℕ) → Vm → ℤ × Vm → Type 0
UnmapOutcome root virt s (r, s') =
    IsSpace root s'
    × (((r ≡ pos 0) × OnePage root virt none s s')
        ⊎ ((r ≡ minus_one) × (leaf root virt s ≡ none) × (s' ≡ s)))

-- What `below` finds.
abbrev pub IsBelow : Vm → ℕ → ℕ → Option ℕ → Type 0
IsBelow s t i none = present (s.entry t i) ≡ false
IsBelow s t i (some t') = Leads s.entry t i t'

pub lower_table-IsBelow : (s : Vm) (t i : ℕ) → IsBelow s t i (lower_table t i s)
unfolding lower_table
lower_table-IsBelow s t i = elim (Bool-cases (present (s.entry t i))) [
  | inl there ↦ rw (lower_table, there) (there, refl)
  | inr gone ↦ rw (lower_table, gone) gone
]

module _ (root virt : ℕ) (s : Vm) (role : Role) (tree : IsTree root role s)
    (user : virt < user_half) where
  abbrev Outcome : ℤ × Vm → Type 0
  Outcome = UnmapOutcome root virt s

  abbrev q3 : ℕ
  q3 = 0 * 512 + pml4_index virt

  abbrev q2 : ℕ
  q2 = q3 * 512 + pdpt_index virt

  abbrev q1 : ℕ
  q1 = q2 * 512 + pd_index virt

  unmap_none : leaf root virt s ≡ none → Outcome (minus_one, s)
  unmap_none gone = ((role, tree), inr (refl, gone, refl))

  unmap_pd :
      (t3 t2 : ℕ)
      → role t3 ≡ some (2, q3)
      → role t2 ≡ some (1, q2)
      → Leads s.entry root (pml4_index virt) t3
      → Leads s.entry t3 (pdpt_index virt) t2
      → (o : Option ℕ) → IsBelow s t2 (pd_index virt) o
      → Outcome (elim o [
        | none ↦ (minus_one, s)
        | some pt ↦ (pos 0, record s { entry = put_entry pt (pt_index virt) 0 s.entry })
      ])
  unmap_pd t3 t2 h3 h2 (p4, c4) (p3, c3) none gone = unmap_none (rw (p4, c4, p3, c3, gone) refl)
  unmap_pd t3 t2 h3 h2 a4 a3 (some pt) (p2, c2) =
      let us : IsUser 1 (pd_index virt) = (omega arith, λ e. omega arith) in
      let h1 : role pt ≡ some (0, q1) =
        rw c2 at ((tree.child t2 0 q2 (pd_index virt) h2 us p2).0) in
      (
        (role, leaf_IsTree root role s pt q1 (pt_index virt) 0 tree h1),
        inl (refl, leaf-OnePage root role s t3 t2 pt virt 0 tree user h1 h3 h2 a4 a3 (p2, c2)),
      )

  unmap_pdpt :
      (t3 : ℕ)
      → role t3 ≡ some (2, q3)
      → Leads s.entry root (pml4_index virt) t3
      → (o : Option ℕ) → IsBelow s t3 (pdpt_index virt) o
      → Outcome (elim o [
        | none ↦ (minus_one, s)
        | some pd ↦ elim (lower_table pd (pd_index virt) s) [
          | none ↦ (minus_one, s)
          | some pt ↦ (pos 0, record s { entry = put_entry pt (pt_index virt) 0 s.entry })
        ]
      ])
  unmap_pdpt t3 h3 (p4, c4) none gone = unmap_none (rw (p4, c4, gone) refl)
  unmap_pdpt t3 h3 a4 (some t2) (p3, c3) =
      let us : IsUser 2 (pdpt_index virt) = (omega arith, λ e. omega arith) in
      let h2 : role t2 ≡ some (1, q2) =
        rw c3 at ((tree.child t3 1 q3 (pdpt_index virt) h3 us p3).0) in
      unmap_pd t3 t2 h3 h2 a4 (p3, c3) (lower_table t2 (pd_index virt) s)
        (lower_table-IsBelow s t2 (pd_index virt))

  unmap_pml4 :
      (o : Option ℕ)
      → IsBelow s root (pml4_index virt) o
      → Outcome (elim o [
        | none ↦ (minus_one, s)
        | some pdpt ↦ elim (lower_table pdpt (pdpt_index virt) s) [
          | none ↦ (minus_one, s)
          | some pd ↦ elim (lower_table pd (pd_index virt) s) [
            | none ↦ (minus_one, s)
            | some pt ↦ (pos 0, record s { entry = put_entry pt (pt_index virt) 0 s.entry })
          ]
        ]
      ])
  unmap_pml4 none gone = unmap_none (rw gone refl)
  unmap_pml4 (some t3) (p4, c4) =
      let us : IsUser 3 (pml4_index virt) = (omega arith, λ e. omega arith) in
      let h3 : role t3 ≡ some (2, q3) =
        rw c4 at ((tree.child root 2 0 (pml4_index virt) tree.at_root us p4).0) in
      unmap_pdpt t3 h3 (p4, c4) (lower_table t3 (pdpt_index virt) s)
        (lower_table-IsBelow s t3 (pdpt_index virt))

-- On an address of the user's half, vmm_unmap_page either returns 0, and then that page is gone and
-- every other page of the user's half is as before; or it returns -1, the page was not mapped and
-- nothing changes. In both cases the tables form a tree again.
pub vmm_unmap_page-UnmapOutcome :
    (root virt : ℕ) (s : Vm)
    → IsSpace root s
    → virt < user_half
    → UnmapOutcome root virt s (vmm_unmap_page root virt s)
unfolding vmm_unmap_page
vmm_unmap_page-UnmapOutcome root virt s (role, tree) user =
    unmap_pml4 root virt s role tree user (lower_table root (pml4_index virt) s)
      (lower_table-IsBelow s root (pml4_index virt))
