-- ===== src/UserMemory/Space.antt =====
-- core/tasks/tasks.c and core/memory/pfault.c: a new page in an address space.
use bomboclaat_os.Base.{
  ℕ, ◌+◌, ◌/◌, ◌%◌, ◌^◌, ◌≤◌, ◌<◌, ◌≡◌, refl, ap, ◌∙◌, inl, inr, Bool, true, false, ◌||◌, none,
  some, ◌==◌, ==_iff, ==_false, if◌then◌else◌, arith,
}
use bomboclaat_os.Memtools.{memset}
use bomboclaat_os.Pmm.{Pmm, is_used, pmm_alloc_frame}
use bomboclaat_os.Pmm.Frames.{Took, AllocResult, pmm_alloc_frame-AllocResult}
use bomboclaat_os.Vmm.{Vm, vmm_map_page, leaf_entry, free_frame}
use bomboclaat_os.Pmm.{
  FreeResult, freed, already_free, panic_unaligned, panic_too_high, pmm_free_frame,
}
use bomboclaat_os.Vmm.Tree.{AreFlags}
use bomboclaat_os.Vmm.Pages.{leaf, user_half, OnePage}
use bomboclaat_os.Vmm.Mapping.{IsSpace, vmm_map_page-MapOutcome}
use bomboclaat_os.UserMemory.Fresh.{
  Machine, pmm_alloc_frame_zeroed, NewPage, mapped, no_frame, no_table, page_panic, given_back,
  new_page,
}

-- Taking a frame keeps the tree.
Took-IsSpace :
    (root f : ℕ) (s : Vm) (pmm' : Pmm)
    → IsSpace root s
    → Took s.pmm f pmm'
    → IsSpace root (record s { pmm = pmm' })
Took-IsSpace root f s pmm' (role, tree) took = (
  role,
  record {
    valid = took.valid;
    some_frames = omega (arith, took.total, tree.some_frames);
    addressable = omega (arith, took.total, tree.addressable);
    at_root = tree.at_root;
    child = tree.child;
    held = λ t n h.
        let (aligned, used) = tree.held t n h in
        (aligned, took.frames (t / 4096) ∙ or_true (f == t / 4096) _ used);
  },
)
  where
    or_true : (a b : Bool) → b ≡ true → (a || b) ≡ true
    or_true true b h = refl
    or_true false b h = h

-- The pages of the user's half are as before.
abbrev pub SamePages : ℕ → Vm → Vm → Type 0
SamePages root s s' = (v : ℕ) → v < user_half → leaf root v s' ≡ leaf root v s

-- What new_page may leave: the page is mapped to a frame that was free; or all pages are as before.
abbrev pub PageOutcome : (root va flags : ℕ) → Machine → NewPage → Type 0
PageOutcome root va flags m (mapped frame m') =
    IsSpace root m'.vm
    × (is_used m.vm.pmm.bitmap (frame / 4096) ≡ false)
    × (frame % 4096 ≡ 0)
    × OnePage root va (some (leaf_entry frame flags)) m.vm m'.vm
PageOutcome root va flags m (no_frame m') =
    SamePages root m.vm m'.vm
    × ((g : ℕ) → 1 ≤ g → g < m.vm.pmm.total_frames → is_used m.vm.pmm.bitmap g ≡ true)
PageOutcome root va flags m (no_table m') = SamePages root m.vm m'.vm
PageOutcome root va flags m page_panic = Unit

free_frame-SamePages :
    (root va flags frame : ℕ) (m m1 : Machine) (s' : Vm)
    → SamePages root m.vm s'
    → PageOutcome root va flags m (given_back m1 (free_frame frame s'))
unfolding free_frame
free_frame-SamePages root va flags frame m m1 s' same = go (pmm_free_frame frame s'.pmm)
  where
    go :
        (o : FreeResult)
        → PageOutcome root va flags m (
            given_back m1 (elim o [
              | freed p ↦ some (record s' { pmm = p })
              | already_free p ↦ some (record s' { pmm = p })
              | panic_unaligned ↦ none
              | panic_too_high ↦ none
            ]))
    go (freed p) = same
    go (already_free p) = same
    go panic_unaligned = tt
    go panic_too_high = tt

-- In an address space that is a tree, new_page on an address of the user's half maps a frame that
-- was free at its page and changes no other page, and the tables form a tree again; or it leaves
-- every page as it was, for want of a frame.
pub new_page-PageOutcome :
    (root va flags : ℕ) (m : Machine)
    → IsSpace root m.vm
    → va < user_half
    → AreFlags (flags % 4096)
    → PageOutcome root va flags m (new_page root va flags m)
unfolding new_page pmm_alloc_frame_zeroed
new_page-PageOutcome root va flags m (role, tree) user f =
    go (pmm_alloc_frame m.vm.pmm).0 (pmm_alloc_frame m.vm.pmm).1
      (pmm_alloc_frame-AllocResult m.vm.pmm tree.valid tree.some_frames)
  where
    go :
        (a : ℕ) (pmm' : Pmm)
        → AllocResult m.vm.pmm 1 (a, pmm')
        → let vm' : Vm = record m.vm { pmm = pmm' } in
          let zeroed : ℕ × Machine = if a == 0 then (0, record m { vm = vm' }) else (
            a,
            record m { vm = vm'; mem = memset ((a + m.hhdm_offset) % 2 ^ 64) 0 4096 m.mem },
          ) in
          let r = vmm_map_page root va zeroed.0 flags zeroed.1.vm in
          PageOutcome root va flags m (
            if zeroed.0 == 0
            then no_frame zeroed.1
            else if r.0 == 0
            then mapped zeroed.0 (record zeroed.1 { vm = r.1 })
            else given_back zeroed.1 (free_frame zeroed.0 r.1))
    go a pmm' (inl (null, same, full)) = let z = (==_iff a 0).1 null in rw z ((λ v h. refl), full)
    go a pmm' (inr (g, at, lo, below, _, took)) =
        let nz : (a == 0) ≡ false = ground arith in
        let vm' : Vm = record m.vm { pmm = pmm' } in
        let space = Took-IsSpace root g m.vm pmm' (role, tree) took in
        let (space', outcome) = vmm_map_page-MapOutcome root va a flags vm' space user f in
        let frame : a / 4096 ≡ g = omega arith in
        let m1 : Machine = record m {
          vm = vm';
          mem = memset ((a + m.hhdm_offset) % 2 ^ 64) 0 4096 m.mem;
        } in
        elim outcome [
          | inl (ok, one) ↦
              let z = (==_iff _ _).1 ok in
              rw nz (
                rw (nz, z)
                  (space', ap (is_used m.vm.pmm.bitmap) frame ∙ took.was_free, omega arith, one))
          | inr (failed, same, full) ↦
              let z = ==_false _ _ failed in
              rw nz (rw (nz, z) (free_frame-SamePages root va flags a m m1 _ same))
        ]
