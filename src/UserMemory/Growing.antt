-- ===== src/UserMemory/Growing.antt =====
-- core/tasks/tasks.c and core/memory/pfault.c: the pages that task_sbrk and a fault add.
use bomboclaat_os.Base.{
  ℕ, zero, suc, ◌+◌, ◌*◌, ◌/◌, ◌%◌, ◌≤◌, ◌<◌, ◌≡◌, ◌≢◌, refl, sym, ◌∙◌, ◌⊎◌, inl, inr, ◌&&◌, Option,
  none, some, ◌==◌, ==_iff, ltb, leb, Bool-cases, arith, false≢true,
}
use bomboclaat_os.Vmm.{leaf_entry}
use bomboclaat_os.Vmm.Tree.{AreFlags}
use bomboclaat_os.Vmm.Pages.{leaf, user_half, OnePage}
use bomboclaat_os.Vmm.Mapping.{IsSpace}
use bomboclaat_os.Userspace.{user_space_limit}
use bomboclaat_os.UserMemory.Fresh.{
  Machine, NewPage, new_page, mapped, no_frame, no_table, page_panic,
}
use bomboclaat_os.UserMemory.Heap.{Mm, Growth, grown, stopped, growth_panic, grow_pages}
use bomboclaat_os.UserMemory.Fault.{user_pf}
use bomboclaat_os.UserMemory.Space.{SamePages, PageOutcome, new_page-PageOutcome}

-- Present, writable, for the user.
pub writable-AreFlags : AreFlags (7 % 4096)
writable-AreFlags = record { low = omega arith; is_present = refl; small = refl }

-- `v` lies in the `count` pages from `va` on.
abbrev pub InPages : ℕ → ℕ → ℕ → Type 0
InPages va count v = (va ≤ v) × (v < va + count * 4096)

-- What the loop may return.
abbrev pub GrowOutcome : (root va count : ℕ) → Machine → Growth → Type 0
GrowOutcome root va count m (grown m') =
    IsSpace root m'.vm
    × ((v : ℕ)
        → v < user_half
        → (InPages va count v
            × ((frame : ℕ) × (frame % 4096 ≡ 0) × (leaf root v m'.vm ≡ some (leaf_entry frame 7))))
          ⊎ ((InPages va count v → ⊥) × (leaf root v m'.vm ≡ leaf root v m.vm)))
GrowOutcome root va count m (stopped at m') = (va ≤ at) × (at < va + count * 4096) × (at % 4096 ≡ 0)
GrowOutcome root va count m growth_panic = Unit

GrowOutcome-step :
    (root va count frame : ℕ) (m m1 : Machine) (g : Growth)
    → va % 4096 ≡ 0
    → frame % 4096 ≡ 0
    → OnePage root va (some (leaf_entry frame 7)) m.vm m1.vm
    → GrowOutcome root (va + 4096) count m1 g
    → GrowOutcome root va (suc count) m g
GrowOutcome-step root va count frame m m1 (grown m') aligned low one (space, pages) = (
  space,
  λ v h. elim (pages v h) [
    | inl (inside, fresh) ↦ inl ((omega arith, omega arith), fresh)
    | inr (outside, same) ↦ elim (Bool-cases (v / 4096 == va / 4096)) [
      | inl here ↦
          let e = (==_iff (v / 4096) (va / 4096)).0 here in
          inl ((omega arith, omega arith), (frame, low, same ∙ one v h ∙ rw here refl))
      | inr other ↦
          let ne : (v / 4096 ≡ va / 4096) → ⊥ =
            λ e. false≢true (sym other ∙ (==_iff (v / 4096) (va / 4096)).1 e) in
          inr ((λ (lo, hi). apart v ne outside lo hi), same ∙ one v h ∙ rw other refl)
    ]
  ],
)
  where
    apart :
        (v : ℕ)
        → ((v / 4096 ≡ va / 4096) → ⊥)
        → (InPages (va + 4096) count v → ⊥)
        → va ≤ v
        → v < va + suc count * 4096
        → ⊥
    apart v ne outside lo hi = elim (Bool-cases (ltb v (va + 4096))) [
      | inl below ↦ let lt : v < va + 4096 = ground arith in ne (omega arith)
      | inr above ↦ let ge : va + 4096 ≤ v = ground arith in outside (ge, omega arith)
    ]
GrowOutcome-step root va count frame m m1 (stopped at m') aligned low one (lo, hi, z) =
    (omega arith, omega arith, z)
GrowOutcome-step root va count frame m m1 growth_panic aligned low one h = tt

-- If the loop of task_sbrk that maps pages comes to its end, then each of its pages has a frame of
-- its own entry, writable and for the user, every other page of the user's half is as before and the
-- tables form a tree again.
pub grow_pages-GrowOutcome :
    (count root va : ℕ) (m : Machine)
    → IsSpace root m.vm
    → va % 4096 ≡ 0
    → va + count * 4096 ≤ user_half
    → GrowOutcome root va count m (grow_pages count root va m)
unfolding grow_pages
grow_pages-GrowOutcome zero root va m space aligned below =
    (space, λ v h. inr ((λ (lo, hi). omega arith), refl))
grow_pages-GrowOutcome (suc count) root va m space aligned below =
    go (new_page root va 7 m)
      (new_page-PageOutcome root va 7 m space (omega arith) writable-AreFlags)
      (λ m1 space1.
        grow_pages-GrowOutcome count root (va + 4096) m1 space1 (omega arith) (omega arith))
  where
    go :
        (o : NewPage)
        → PageOutcome root va 7 m o
        → ((m1 : Machine)
            → IsSpace root m1.vm
            → GrowOutcome root (va + 4096) count m1 (grow_pages count root (va + 4096) m1))
        → GrowOutcome root va (suc count) m (elim o [
          | mapped frame m' ↦ grow_pages count root (va + 4096) m'
          | no_frame m' ↦ stopped va m'
          | no_table m' ↦ stopped va m'
          | page_panic ↦ growth_panic
        ])
    go (mapped frame m1) (space1, free, low, one) rest =
        GrowOutcome-step root va count frame m m1 (grow_pages count root (va + 4096) m1) aligned low
          one (rest m1 space1)
    go (no_frame m1) h rest = (omega arith, omega arith, aligned)
    go (no_table m1) h rest = (omega arith, omega arith, aligned)
    go page_panic h rest = tt

-- What user_pf may return, but for a panic.
abbrev pub FaultOutcome : (root error addr : ℕ) → Mm → Machine → Option (ℕ × Machine) → Type 0
FaultOutcome root error addr mm m none = Unit
FaultOutcome root error addr mm m (some (r, m')) =
    ((r ≡ 0)
      × (error % 2 ≡ 0)
      × (mm.stack_limit ≤ addr)
      × (addr < mm.stack_start)
      × IsSpace root m'.vm
      × ((frame : ℕ) × (frame % 4096 ≡ 0)
          × OnePage root (addr / 4096 * 4096) (some (leaf_entry frame 7)) m.vm m'.vm))
    ⊎ ((r ≢ 0) × SamePages root m.vm m'.vm)

-- user_pf returns 0 only on a fault of a page that is not present, at an address of the stack; then
-- the page of that address has a frame, writable and for the user, no other page changes and the
-- tables form a tree again. With another result every page is as before.
pub user_pf-FaultOutcome :
    (root error addr : ℕ) (mm : Mm) (m : Machine)
    → IsSpace root m.vm
    → FaultOutcome root error addr mm m (user_pf root error addr mm m)
unfolding user_pf
user_pf-FaultOutcome root error addr mm m space = elim (Bool-cases (error % 2 == 0)) [
  | inr held ↦ rw held (inr ((λ e. omega arith), (λ v h. refl)))
  | inl missing ↦ elim (Bool-cases (leb user_space_limit addr)) [
    | inl high ↦ rw (missing, high) (inr ((λ e. omega arith), (λ v h. refl)))
    | inr user ↦ elim (Bool-cases (ltb addr mm.stack_start && leb mm.stack_limit addr)) [
      | inr elsewhere ↦ rw (missing, user, elsewhere) (inr ((λ e. omega arith), (λ v h. refl)))
      | inl stack ↦
          rw (missing, user, stack)
            (go (ground arith) (ground arith) (ground arith)
              (new_page root (addr / 4096 * 4096) 7 m)
              (new_page-PageOutcome root (addr / 4096 * 4096) 7 m space (ground arith)
                writable-AreFlags))
    ]
  ]
]
  where
    go :
        error % 2 ≡ 0
        → mm.stack_limit ≤ addr
        → addr < mm.stack_start
        → (o : NewPage) → PageOutcome root (addr / 4096 * 4096) 7 m o
        → FaultOutcome root error addr mm m (elim o [
          | mapped frame m' ↦ some (0, m')
          | no_frame m' ↦ some (3, m')
          | no_table m' ↦ some (4, m')
          | page_panic ↦ none
        ])
    go even lo hi (mapped frame m1) (space1, free, low, one) =
        inl (refl, even, lo, hi, space1, (frame, low, one))
    go even lo hi (no_frame m1) (same, full) = inr ((λ e. omega arith), same)
    go even lo hi (no_table m1) same = inr ((λ e. omega arith), same)
    go even lo hi page_panic h = tt
