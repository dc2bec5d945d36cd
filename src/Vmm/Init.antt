-- ===== src/Vmm/Init.antt =====
-- core/memory/vmm.c: vmm_init makes an address space without pages.
use bomboclaat_os.Base.{
  ℕ, suc, ◌/◌, ◌%◌, ◌^◌, ◌≤◌, ◌<◌, ◌≡◌, refl, sym, ap, ◌∙◌, ◌≢◌, inl, inr, true, false, Option,
  none, some, [], ◌∷◌, ◌==◌, ==_iff, ==_false, ltb, if◌then◌else◌, Bool-cases, arith, false≢true,
}
use bomboclaat_os.Pmm.{Pmm, is_used, pmm_alloc_frame}
use bomboclaat_os.Pmm.Frames.{IsValid, AllocResult, pmm_alloc_frame-AllocResult}
use bomboclaat_os.Vmm.Table.{Vm, present, pml4_index, pdpt_index, pd_index, pt_index}
use bomboclaat_os.Vmm.Space.{kernel_half, vmm_init}
use bomboclaat_os.Vmm.Tree.{Role, IsTree, level_of, walk-none}
use bomboclaat_os.Vmm.Pages.{leaf, user_half}
use bomboclaat_os.Vmm.Mapping.{IsSpace}

-- The tree with the pml4 alone.
abbrev pub only : ℕ → Role
only root u = if u == root then some (3, 0) else none

only-root : (root u : ℕ) (n : ℕ × ℕ) → only root u ≡ some n → u ≡ root
only-root root u n h = elim (Bool-cases (u == root)) [
  | inl e ↦ (==_iff u root).0 e
  | inr ne ↦
      let gone : only root u ≡ none = rw ne refl in
      absurd (
        false≢true
          (ap (λ (o : Option (ℕ × ℕ)). elim o [ none ↦ false | some _ ↦ true ]) (sym gone ∙ h)))
]

-- A pml4 without entries in the user's half is a tree.
pub only-IsTree :
    (root : ℕ) (s : Vm)
    → IsValid s.pmm
    → 0 < s.pmm.total_frames
    → s.pmm.total_frames ≤ 2 ^ 40
    → root % 4096 ≡ 0
    → is_used s.pmm.bitmap (root / 4096) ≡ true
    → ((j : ℕ) → j < 256 → present (s.entry root j) ≡ false)
    → IsTree root (only root) s
only-IsTree root s valid some_frames addressable aligned used empty = record {
  valid = valid;
  some_frames = some_frames;
  addressable = addressable;
  at_root = let h = (==_iff root root).1 refl in rw h refl;
  child = λ t l pre i h us p.
      let e = only-root root t (suc l, pre) h in
      let top : only root root ≡ some (3, 0) = let h = (==_iff root root).1 refl in rw h refl in
      let three : suc l ≡ 3 = ap level_of (sym h ∙ ap (only root) e ∙ top) in
      absurd (
        false≢true
          (sym (empty i (us.1 three)) ∙ sym (ap (λ (u : ℕ). present (s.entry u i)) e) ∙ p));
  held = λ t n h. let e = only-root root t n h in rw e (aligned, used);
}

-- What vmm_init returns: nothing when no frame is free, or an address space without pages in the
-- user's half, with the kernel's entries in the other, in a frame that was free.
abbrev pub InitOutcome : ℕ → Vm → Option (ℕ × Vm) → Type 0
InitOutcome kernel_pml4 s none =
    (g : ℕ) → 1 ≤ g → g < s.pmm.total_frames → is_used s.pmm.bitmap g ≡ true
InitOutcome kernel_pml4 s (some (new, s')) =
    IsSpace new s'
    × (new ≢ 0)
    × (is_used s.pmm.bitmap (new / 4096) ≡ false)
    × ((v : ℕ) → v < user_half → leaf new v s' ≡ none)
    × ((j : ℕ) → 256 ≤ j → s'.entry new j ≡ s.entry kernel_pml4 j)
    × ((u j : ℕ) → u ≢ new → s'.entry u j ≡ s.entry u j)

-- vmm_init fails exactly when no frame is free; otherwise the new address space is a tree without
-- pages in the user's half, its other half is the kernel's, it lies in a frame that was free, and no
-- other table changes.
pub vmm_init-InitOutcome :
    (kernel_pml4 : ℕ) (s : Vm)
    → IsValid s.pmm
    → 0 < s.pmm.total_frames
    → s.pmm.total_frames ≤ 2 ^ 40
    → InitOutcome kernel_pml4 s (vmm_init kernel_pml4 s)
unfolding vmm_init
vmm_init-InitOutcome kernel_pml4 s valid some_frames addressable =
    go (pmm_alloc_frame s.pmm).0 (pmm_alloc_frame s.pmm).1
      (pmm_alloc_frame-AllocResult s.pmm valid some_frames)
  where
    go :
        (a : ℕ) (pmm' : Pmm)
        → AllocResult s.pmm 1 (a, pmm')
        → InitOutcome kernel_pml4 s (
            if a == 0
            then none
            else some (a, record { pmm = pmm'; entry = kernel_half a kernel_pml4 s.entry }))
    go a pmm' (inl (null, _, full)) = let z = (==_iff a 0).1 null in rw z full
    go a pmm' (inr (g, at, lo, below, _, took)) =
        let ne : a ≢ 0 = λ e. omega arith in
        let nz = ==_false a 0 ne in
        let frame : a / 4096 ≡ g = omega arith in
        let s' : Vm = record { pmm = pmm'; entry = kernel_half a kernel_pml4 s.entry } in
        let same : (a == a) ≡ true = (==_iff a a).1 refl in
        let taken : is_used pmm'.bitmap (a / 4096) ≡ true =
          let gg : (g == g) ≡ true = (==_iff g g).1 refl in
          ap (is_used pmm'.bitmap) frame ∙ took.frames g ∙ rw gg refl in
        let empty : (j : ℕ) → j < 256 → present (s'.entry a j) ≡ false =
          λ j h. let lt : ltb j 256 ≡ true = ground arith in rw (same, lt) refl in
        let tree =
          only-IsTree a s' took.valid (omega (arith, took.total, some_frames))
            (omega (arith, took.total, addressable)) (omega arith) taken empty in
        rw nz (
          (only a, tree),
          ne,
          ap (is_used s.pmm.bitmap) frame ∙ took.was_free,
          (λ v h.
              walk-none (pml4_index v) (pdpt_index v ∷ pd_index v ∷ pt_index v ∷ []) a s'.entry
                (empty (pml4_index v) (omega arith))),
          (λ j h. let ge : ltb j 256 ≡ false = ground arith in rw (same, ge) refl),
          (λ u j other. let miss = ==_false u a other in rw miss refl),
        )
