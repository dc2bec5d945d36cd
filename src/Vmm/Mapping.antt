-- ===== src/Vmm/Mapping.antt =====
-- core/memory/vmm.c: vmm_map_page and vmm_unmap_page on the pages of an address space.
use bomboclaat_os.Base.{
  ℕ, ◌+◌, ◌*◌, ◌/◌, ◌%◌, ◌≤◌, ◌<◌, ◌≡◌, refl, ap, ◌∙◌, ◌≢◌, ◌⊎◌, inl, inr, true, Option, none, some,
  ◌==◌, if◌then◌else◌, bit_or, arith,
}
use bomboclaat_os.Base.Or.{bit_or-even}
use bomboclaat_os.Pmm.{is_used}
use bomboclaat_os.Vmm.Table.{Vm, present, pml4_index, pdpt_index, pd_index, pt_index, put_entry}
use bomboclaat_os.Vmm.Map.{next_table, leaf_entry, vmm_map_page}
use bomboclaat_os.Vmm.Tree.{Role, IsUser, IsTree, AreFlags, Extended}
use bomboclaat_os.Vmm.Grow.{IsNext, next_table-IsNext}
use bomboclaat_os.Vmm.Pages.{
  path, leaf, user_half, path-IsPath, Leads, leaf_IsTree, OnePage, leaf-OnePage,
}

-- The address space at `root` has a tree of tables.
abbrev pub IsSpace : ℕ → Vm → Type 0
IsSpace root s = (role : Role) × IsTree root role s

-- What vmm_map_page leaves: the page is mapped, or no frame is free and every page is as before.
abbrev pub MapOutcome : (root virt phys flags : ℕ) → Vm → ℕ × Vm → Type 0
MapOutcome root virt phys flags s (r, s') =
    IsSpace root s'
    × (((r ≡ 0) × OnePage root virt (some (leaf_entry phys flags)) s s')
        ⊎ ((r ≢ 0)
            × ((v : ℕ) → v < user_half → leaf root v s' ≡ leaf root v s)
            × ((g : ℕ) → 1 ≤ g → g < s'.pmm.total_frames → is_used s'.pmm.bitmap g ≡ true)))

leaf_entry-present : (phys flags : ℕ) → present (leaf_entry phys flags) ≡ true
leaf_entry-present phys flags =
    let odd : leaf_entry phys flags % 2 ≡ 1 = omega (arith, bit_or-even (bit_or phys flags) 1) in
    rw odd refl

abbrev Unchanged : ℕ → Vm → Vm → Type 0
Unchanged root s s' = (v : ℕ) → v < user_half → leaf root v s' ≡ leaf root v s

Extended-Unchanged :
    (root : ℕ) (role : Role) (s s1 s2 : Vm) (t i t' : ℕ) (node : ℕ × ℕ)
    → IsTree root role s1
    → Unchanged root s s1
    → Extended root t i t' node role s1 s2
    → Unchanged root s s2
Extended-Unchanged root role s s1 s2 t i t' node tree same x v h =
    x.walks (path v) root 3 0 tree.at_root (path-IsPath v h) ∙ same v h

-- A table further up still leads where it did.
Leads-Extended :
    (root : ℕ) (role : Role) (s1 s2 : Vm) (t i t' : ℕ) (node n : ℕ × ℕ) (u j u' : ℕ)
    → Extended root t i t' node role s1 s2
    → role u ≡ some n
    → Leads s1.entry u j u'
    → Leads s2.entry u j u'
Leads-Extended root role s1 s2 t i t' node n u j u' x h (p, c) =
    let (p', c') = x.kept u j n h p in (p', c' ∙ c)

module _ (root virt phys flags : ℕ) (s : Vm) (user : virt < user_half)
    (f : AreFlags (flags % 4096)) where
  -- The flags of the tables on the way.
  abbrev perm : ℕ
  perm = flags % 4096

  abbrev i4 : ℕ
  i4 = pml4_index virt

  abbrev i3 : ℕ
  i3 = pdpt_index virt

  abbrev i2 : ℕ
  i2 = pd_index virt

  abbrev q3 : ℕ
  q3 = 0 * 512 + i4

  abbrev q2 : ℕ
  q2 = q3 * 512 + i3

  abbrev q1 : ℕ
  q1 = q2 * 512 + i2

  abbrev Outcome : ℕ × Vm → Type 0
  Outcome = MapOutcome root virt phys flags s

  -- All three tables are there.
  map_leaf :
      (role : Role) (t3 t2 : ℕ) (s3 : Vm) (pt : ℕ)
      → IsTree root role s3
      → Unchanged root s s3
      → role t3 ≡ some (2, q3)
      → role t2 ≡ some (1, q2)
      → role pt ≡ some (0, q1)
      → Leads s3.entry root i4 t3
      → Leads s3.entry t3 i3 t2
      → Leads s3.entry t2 i2 pt
      → Outcome
          (0, record s3 { entry = put_entry pt (pt_index virt) (leaf_entry phys flags) s3.entry })
  map_leaf role t3 t2 s3 pt tree same h3 h2 h1 a4 a3 a2 =
      let e = leaf_entry phys flags in
      let there = leaf_entry-present phys flags in
      let one = leaf-OnePage root role s3 t3 t2 pt virt e tree user h1 h3 h2 a4 a3 a2 in
      (
        (role, leaf_IsTree root role s3 pt q1 (pt_index virt) e tree h1),
        inl (
          refl,
          λ v h.
              rw there at (one v h)
              ∙ ap (λ (o : Option ℕ). if v / 4096 == virt / 4096 then some e else o) (same v h),
        ),
      )

  -- An allocation failed.
  map_full :
      (role : Role) (s' : Vm) (r : ℕ)
      → r ≢ 0
      → IsTree root role s'
      → Unchanged root s s'
      → ((g : ℕ) → 1 ≤ g → g < s'.pmm.total_frames → is_used s'.pmm.bitmap g ≡ true)
      → Outcome (r, s')
  map_full role s' r ne tree same full = ((role, tree), inr (ne, same, full))

  map_pd :
      (role : Role) (t3 t2 : ℕ) (s2 : Vm)
      → IsTree root role s2
      → Unchanged root s s2
      → role t3 ≡ some (2, q3)
      → role t2 ≡ some (1, q2)
      → Leads s2.entry root i4 t3
      → Leads s2.entry t3 i3 t2
      → (o : Option (ℕ × Vm)) → IsNext root role s2 t2 i2 (0, q1) o
      → Outcome (elim o [
        | none ↦ (3, s2)
        | some (pt, s3) ↦
            (0, record s3 { entry = put_entry pt (pt_index virt) (leaf_entry phys flags) s3.entry })
      ])
  map_pd role t3 t2 s2 tree same h3 h2 a4 a3 none full =
      map_full role s2 3 (omega arith) tree same full
  map_pd role t3 t2 s2 tree same h3 h2 a4 a3 (some (pt, s3)) x =
      map_leaf x.role' t3 t2 s3 pt x.tree
        (Extended-Unchanged root role s s2 s3 t2 i2 pt (0, q1) tree same x) (x.grows t3 (2, q3) h3)
        (x.grows t2 (1, q2) h2) x.at
        (Leads-Extended root role s2 s3 t2 i2 pt (0, q1) (3, 0) root i4 t3 x tree.at_root a4)
        (Leads-Extended root role s2 s3 t2 i2 pt (0, q1) (2, q3) t3 i3 t2 x h3 a3) x.linked

  map_pdpt :
      (role : Role) (t3 : ℕ) (s1 : Vm)
      → IsTree root role s1
      → Unchanged root s s1
      → role t3 ≡ some (2, q3)
      → Leads s1.entry root i4 t3
      → (o : Option (ℕ × Vm)) → IsNext root role s1 t3 i3 (1, q2) o
      → Outcome (elim o [
        | none ↦ (2, s1)
        | some (pd, s2) ↦ elim (next_table pd i2 perm s2) [
          | none ↦ (3, s2)
          | some (pt, s3) ↦ (
            0,
            record s3 { entry = put_entry pt (pt_index virt) (leaf_entry phys flags) s3.entry },
          )
        ]
      ])
  map_pdpt role t3 s1 tree same h3 a4 none full = map_full role s1 2 (omega arith) tree same full
  map_pdpt role t3 s1 tree same h3 a4 (some (t2, s2)) x =
      let us : IsUser 1 i2 = (omega arith, λ e. omega arith) in
      map_pd x.role' t3 t2 s2 x.tree
        (Extended-Unchanged root role s s1 s2 t3 i3 t2 (1, q2) tree same x) (x.grows t3 (2, q3) h3)
        x.at (Leads-Extended root role s1 s2 t3 i3 t2 (1, q2) (3, 0) root i4 t3 x tree.at_root a4)
        x.linked (next_table t2 i2 perm s2)
        (next_table-IsNext root x.role' s2 t2 0 q2 i2 perm x.tree x.at us f)

  map_pml4 :
      (role : Role)
      → IsTree root role s
      → (o : Option (ℕ × Vm)) → IsNext root role s root i4 (2, q3) o
      → Outcome (elim o [
        | none ↦ (1, s)
        | some (pdpt, s1) ↦ elim (next_table pdpt i3 perm s1) [
          | none ↦ (2, s1)
          | some (pd, s2) ↦ elim (next_table pd i2 perm s2) [
            | none ↦ (3, s2)
            | some (pt, s3) ↦ (
              0,
              record s3 { entry = put_entry pt (pt_index virt) (leaf_entry phys flags) s3.entry },
            )
          ]
        ]
      ])
  map_pml4 role tree none full = map_full role s 1 (omega arith) tree (λ v h. refl) full
  map_pml4 role tree (some (t3, s1)) x =
      let us : IsUser 2 i3 = (omega arith, λ e. omega arith) in
      map_pdpt x.role' t3 s1 x.tree
        (Extended-Unchanged root role s s s1 root i4 t3 (2, q3) tree (λ v h. refl) x) x.at x.linked
        (next_table t3 i3 perm s1)
        (next_table-IsNext root x.role' s1 t3 1 q3 i3 perm x.tree x.at us f)

-- On an address of the user's half, with low flags of a small page that is present, vmm_map_page
-- either returns 0, and then that page has its new entry and every other page of the user's half
-- is as before; or it returns another number, no frame is free, and every page is as before. In
-- both cases the tables form a tree again.
pub vmm_map_page-MapOutcome :
    (root virt phys flags : ℕ) (s : Vm)
    → IsSpace root s
    → virt < user_half
    → AreFlags (flags % 4096)
    → MapOutcome root virt phys flags s (vmm_map_page root virt phys flags s)
unfolding vmm_map_page
vmm_map_page-MapOutcome root virt phys flags s (role, tree) user f =
    let us : IsUser 3 (pml4_index virt) = (omega arith, λ e. omega arith) in
    map_pml4 root virt phys flags s user f role tree
      (next_table root (pml4_index virt) (flags % 4096) s)
      (next_table-IsNext root role s root 2 0 (pml4_index virt) (flags % 4096) tree tree.at_root us
        f)
