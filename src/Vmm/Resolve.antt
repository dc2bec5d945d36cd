-- ===== src/Vmm/Resolve.antt =====
-- core/memory/vmm.c: vmm_resolve against the walk through the tables.
use bomboclaat_os.Base.{
  ℕ, ◌+◌, ◌/◌, ◌%◌, ◌^◌, ◌<◌, ◌≡◌, refl, ap, ◌∙◌, ◌≢◌, inl, inr, Option, none, some, ◌==◌, ==_false,
  if◌then◌else◌, Bool-cases, arith, bit_or,
}
use bomboclaat_os.Vmm.Table.{Vm, present, clear_flags, pml4_index, pdpt_index, pd_index, pt_index}
use bomboclaat_os.Base.Or.{bit_or-frame, bit_or-page}
use bomboclaat_os.Vmm.Map.{
  leaf_entry, vmm_map_page, resolve_pt, resolve_pd, resolve_pdpt, vmm_resolve,
}
use bomboclaat_os.Vmm.Tree.{IsUser, AreFlags}
use bomboclaat_os.Vmm.Pages.{leaf, user_half}
use bomboclaat_os.Vmm.Mapping.{IsSpace, vmm_map_page-MapOutcome}

-- The address that an entry of the lowest level stands for.
abbrev pub address : ℕ → Option ℕ → Option ℕ
address virt none = none
address virt (some e) = some (clear_flags e + virt % 4096)

abbrev pub resolved : Option (ℕ × ℕ) → Option ℕ
resolved none = none
resolved (some (phys, flags)) = some phys

-- On an address of the user's half, vmm_resolve gives the frame of the page's entry with the offset
-- in the page, and fails exactly if the page has no entry.
pub vmm_resolve-address :
    (root virt : ℕ) (s : Vm)
    → IsSpace root s
    → root ≢ 0
    → virt < user_half
    → resolved (vmm_resolve root virt s) ≡ address virt (leaf root virt s)
unfolding vmm_resolve resolve_pdpt resolve_pd resolve_pt
vmm_resolve-address root virt s (role, tree) ne user =
    let nz = ==_false root 0 ne in
    let e4 = s.entry root (pml4_index virt) in
    let t3 = clear_flags e4 in
    let e3 = s.entry t3 (pdpt_index virt) in
    let t2 = clear_flags e3 in
    let e2 = s.entry t2 (pd_index virt) in
    let t1 = clear_flags e2 in
    let e1 = s.entry t1 (pt_index virt) in
    let u4 : IsUser 3 (pml4_index virt) = (omega arith, λ e. omega arith) in
    let u3 : IsUser 2 (pdpt_index virt) = (omega arith, λ e. omega arith) in
    let u2 : IsUser 1 (pd_index virt) = (omega arith, λ e. omega arith) in
    elim (Bool-cases (present e4)) [
      | inr g4 ↦ rw (vmm_resolve, nz, g4) refl
      | inl p4 ↦
          let c4 = tree.child root 2 0 (pml4_index virt) tree.at_root u4 p4 in
          elim (Bool-cases (present e3)) [
            | inr g3 ↦ rw (vmm_resolve, nz, p4, resolve_pdpt, g3) refl
            | inl p3 ↦
                let c3 = tree.child t3 1 _ (pdpt_index virt) c4.0 u3 p3 in
                let small3 : e3 / 128 % 2 ≡ 0 = c3.1 in
                elim (Bool-cases (present e2)) [
                  | inr g2 ↦ rw (vmm_resolve, nz, p4, resolve_pdpt, p3, small3, resolve_pd, g2) refl
                  | inl p2 ↦
                      let c2 = tree.child t2 0 _ (pd_index virt) c3.0 u2 p2 in
                      let small2 : e2 / 128 % 2 ≡ 0 = c2.1 in
                      elim (Bool-cases (present e1)) [
                        | inr g1 ↦
                            rw
                              (
                                vmm_resolve, nz, p4, resolve_pdpt, p3, small3, resolve_pd, p2,
                                small2, resolve_pt, g1,
                              )
                              refl
                        | inl p1 ↦
                            rw
                              (
                                vmm_resolve, nz, p4, resolve_pdpt, p3, small3, resolve_pd, p2,
                                small2, resolve_pt, p1,
                              )
                              refl
                      ]
                ]
          ]
    ]

leaf_entry-clear_flags :
    (phys flags : ℕ)
    → phys % 4096 ≡ 0
    → phys < 2 ^ 52
    → flags / 4096 % 2 ^ 40 ≡ 0
    → clear_flags (leaf_entry phys flags) ≡ phys
leaf_entry-clear_flags phys flags aligned small low =
    let a = bit_or-frame phys flags low in
    let b = bit_or-page (bit_or phys flags) 1 (omega arith) in omega (arith, a, b)

-- In an address space other than null whose tables form a tree, after vmm_map_page returned 0 for an
-- address of the user's half, a page-aligned frame below 2^52 and flags of a small page that is present,
-- outside the bits of the frame, vmm_resolve gives the mapped frame with the offset on the whole page,
-- and what it gave before on every other page of the user's half.
pub vmm_resolve-vmm_map_page :
    (root virt phys flags : ℕ) (s : Vm)
    → IsSpace root s
    → root ≢ 0
    → virt < user_half
    → AreFlags (flags % 4096)
    → phys % 4096 ≡ 0
    → phys < 2 ^ 52
    → flags / 4096 % 2 ^ 40 ≡ 0
    → (vmm_map_page root virt phys flags s).0 ≡ 0
    → (v : ℕ) → v < user_half
    → resolved (vmm_resolve root v (vmm_map_page root virt phys flags s).1) ≡ (
        if v / 4096 == virt / 4096 then some (phys + v % 4096) else resolved (vmm_resolve root v s))
vmm_resolve-vmm_map_page root virt phys flags s space ne user f aligned small low done v hv =
    let (space', outcome) = vmm_map_page-MapOutcome root virt phys flags s space user f in
    elim outcome [
      | inr (failed, _, _) ↦ absurd (failed done)
      | inl (_, one) ↦
          let now = vmm_resolve-address root v _ space' ne hv ∙ ap (address v) (one v hv) in
          let was = vmm_resolve-address root v s space ne hv in
          let frame = leaf_entry-clear_flags phys flags aligned small low in
          now ∙ elim (Bool-cases (v / 4096 == virt / 4096)) [
            | inl same ↦ rw (same, frame) refl
            | inr other ↦ rw (other, was) refl
          ]
    ]
