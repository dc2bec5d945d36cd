-- ===== src/Exec/Walk.antt =====
-- core/tasks/exec.c: the loop of elf_load over the segments.
use bomboclaat_os.Base.{
  ℕ, zero, suc, ◌+◌, ◌*◌, ◌/◌, ◌%◌, ◌^◌, ◌≤◌, ◌<◌, max, ◌≡◌, refl, sym, ap, ◌∙◌, inl, inr, Bool,
  true, false, ◌==◌, ==_iff, if◌then◌else◌, Bool-cases, false≢true, arith, subst,
}
use bomboclaat_os.Vmm.{Vm}
use bomboclaat_os.Vmm.Mapping.{IsSpace}
use bomboclaat_os.UserMemory.{Machine}
use bomboclaat_os.Exec.Elf.{Phdr, executable, is_load}
use bomboclaat_os.Exec.Validate.{user_image_limit}
use bomboclaat_os.Exec.Program.{IsSegment}
use bomboclaat_os.Exec.Load.{
  Layout, Loading, loaded, out_of_memory, load_panic, load_pages, page_count, widen, load_segments,
}
use bomboclaat_os.Exec.Flags.{IsNx}
use bomboclaat_os.Exec.Pages.{IsMapped, Keeps, LoadOutcome, load_pages-LoadOutcome}

abbrev pub last_end : Layout → ℕ
last_end mm = max mm.code_end mm.data_end

-- The segment's addresses are in pages, and end below `limit`.
abbrev pub InMemory : ℕ → ℕ → Phdr → Vm → Type 0
InMemory root limit seg s =
    (seg.p_vaddr + seg.p_memsz ≤ limit)
    × ((v : ℕ) → seg.p_vaddr ≤ v → v < seg.p_vaddr + seg.p_memsz → IsMapped root v s)

-- What the loop over the segments leaves from `i` on.
abbrev pub SegmentsOutcome :
    (root : ℕ)
    → (ℕ → Phdr)
    → (rounds i : ℕ) → Layout
    → Machine
    → Loading (Layout × Machine)
    → Type 0
SegmentsOutcome root ph rounds i mm m (loaded (mm', m')) =
    IsSpace root m'.vm
    × Keeps root m.vm m'.vm
    × (last_end mm ≤ last_end mm')
    × (last_end mm ≤ user_image_limit → last_end mm' ≤ user_image_limit)
    × ((j : ℕ)
        → i ≤ j
        → j < i + rounds
        → is_load (ph j) ≡ true
        → InMemory root (last_end mm') (ph j) m'.vm)
SegmentsOutcome root ph rounds i mm m (out_of_memory m') = Unit
SegmentsOutcome root ph rounds i mm m load_panic = Unit

last_end-widen :
    (size : ℕ) (seg : Phdr) (mm : Layout)
    → IsSegment size seg
    → last_end (widen seg mm) ≡ max (seg.p_vaddr + seg.p_memsz) (last_end mm)
last_end-widen size seg mm fits =
    let below = fits.below in
    let no_wrap : (seg.p_vaddr + seg.p_memsz) % 2 ^ 64 ≡ seg.p_vaddr + seg.p_memsz = omega arith in
    elim (Bool-cases (executable seg)) [
      | inl x ↦ rw (x, no_wrap) (omega arith)
      | inr x ↦ rw (x, no_wrap) (omega arith)
    ]

-- The pages of a segment hold its addresses.
load_pages-InMemory :
    (nx elf root size : ℕ) (seg : Phdr) (m m1 : Machine)
    → IsSegment size seg
    → LoadOutcome root (seg.p_vaddr / 4096 * 4096) (page_count seg) m (loaded m1)
    → (v : ℕ) → seg.p_vaddr ≤ v
    → v < seg.p_vaddr + seg.p_memsz
    → IsMapped root v m1.vm
load_pages-InMemory nx elf root size seg m m1 fits (space, keeps, here) v lo hi =
    let below = fits.below in here v (omega arith) (omega arith, omega arith)

module _ (nx elf root size : ℕ) (ph : ℕ → Phdr) (is_nx : IsNx nx) where
  SegmentsOutcome-skip :
      (rounds i : ℕ) (mm : Layout) (m : Machine) (o : Loading (Layout × Machine))
      → is_load (ph i) ≡ false
      → SegmentsOutcome root ph rounds (i + 1) mm m o
      → SegmentsOutcome root ph (suc rounds) i mm m o
  SegmentsOutcome-skip rounds i mm m (loaded (mm', m')) off (space, keeps, more, limit, all) = (
    space,
    keeps,
    more,
    limit,
    (λ j lo hi load. elim (Bool-cases (i == j)) [
      | inl e ↦ absurd (false≢true (sym off ∙ ap (λ k. is_load (ph k)) ((==_iff i j).0 e) ∙ load))
      | inr ne ↦ all j (ground arith) (omega arith) load
    ]),
  )
  SegmentsOutcome-skip rounds i mm m (out_of_memory m') off h = tt
  SegmentsOutcome-skip rounds i mm m load_panic off h = tt

  SegmentsOutcome-step :
      (rounds i : ℕ) (mm : Layout) (m m1 : Machine) (o : Loading (Layout × Machine))
      → IsSegment size (ph i)
      → LoadOutcome root ((ph i).p_vaddr / 4096 * 4096) (page_count (ph i)) m (loaded m1)
      → SegmentsOutcome root ph rounds (i + 1) (widen (ph i) mm) m1 o
      → SegmentsOutcome root ph (suc rounds) i mm m o
  SegmentsOutcome-step rounds i mm m m1 (loaded (mm', m')) fits pages
        (space, keeps, more, limit, all) =
      let below = fits.below in
      let t = last_end-widen size (ph i) mm fits in
      (
        space,
        (λ v h was. keeps v h (pages.1 v h was)),
        omega arith,
        (λ h. limit (omega arith)),
        (λ j lo hi load. elim (Bool-cases (i == j)) [
          | inr ne ↦ all j (ground arith) (omega arith) load
          | inl e ↦
              subst (λ k. InMemory root (last_end mm') (ph k) m'.vm) ((==_iff i j).0 e)
                (
                  omega arith,
                  (λ v lo' hi'.
                      keeps v (omega arith)
                        (load_pages-InMemory nx elf root size (ph i) m m1 fits pages v lo' hi')),
                )
        ]),
      )
  SegmentsOutcome-step rounds i mm m m1 (out_of_memory m') fits pages h = tt
  SegmentsOutcome-step rounds i mm m m1 load_panic fits pages h = tt

  pub load_segments-SegmentsOutcome :
      (rounds i : ℕ) (mm : Layout) (m : Machine)
      → ((j : ℕ) → i ≤ j → j < i + rounds → is_load (ph j) ≡ true → IsSegment size (ph j))
      → IsSpace root m.vm
      → SegmentsOutcome root ph rounds i mm m (load_segments nx elf root ph rounds i mm m)
  unfolding load_segments
  load_segments-SegmentsOutcome zero i mm m fits space =
      (space, (λ v h was. was), omega arith, (λ h. h), (λ j lo hi load. absurd (omega arith)))
  load_segments-SegmentsOutcome (suc rounds) i mm m fits space =
      by_kind (is_load (ph i)) refl (λ on. fits i (omega arith) (omega arith) on)
        (λ mm' m1 space1.
          load_segments-SegmentsOutcome rounds (i + 1) mm' m1
            (λ j lo hi. fits j (omega arith) (omega arith)) space1)
    where
      segment_pages : Loading Machine
      segment_pages =
          load_pages nx elf root (page_count (ph i)) (ph i) ((ph i).p_vaddr / 4096 * 4096) m

      Rest : Type 0
      Rest =
          (mm' : Layout) (m1 : Machine)
          → IsSpace root m1.vm
          → SegmentsOutcome root ph rounds (i + 1) mm' m1
              (load_segments nx elf root ph rounds (i + 1) mm' m1)

      go :
          IsSegment size (ph i)
          → (o : Loading Machine)
          → LoadOutcome root ((ph i).p_vaddr / 4096 * 4096) (page_count (ph i)) m o
          → Rest
          → SegmentsOutcome root ph (suc rounds) i mm m (elim o [
            | loaded m' ↦ load_segments nx elf root ph rounds (i + 1) (widen (ph i) mm) m'
            | out_of_memory m' ↦ out_of_memory m'
            | load_panic ↦ load_panic
          ])
      go here (loaded m1) h rest =
          SegmentsOutcome-step rounds i mm m m1 _ here h (rest (widen (ph i) mm) m1 h.0)
      go here (out_of_memory m1) h rest = tt
      go here load_panic h rest = tt

      by_kind :
          (b : Bool)
          → is_load (ph i) ≡ b
          → (b ≡ true → IsSegment size (ph i))
          → Rest
          → SegmentsOutcome root ph
              (suc rounds)
              i
              mm
              m
              (elim (if b then segment_pages else loaded m) [
                | loaded m' ↦
                    load_segments nx elf root ph rounds
                      (i + 1)
                      (if b then widen (ph i) mm else mm)
                      m'
                | out_of_memory m' ↦ out_of_memory m'
                | load_panic ↦ load_panic
              ])
      by_kind false off here rest = SegmentsOutcome-skip rounds i mm m _ off (rest mm m space)
      by_kind true on here rest =
          let fine = here refl in
          let below = fine.below in
          go fine segment_pages
            (load_pages-LoadOutcome (page_count (ph i)) nx elf root (ph i)
              ((ph i).p_vaddr / 4096 * 4096) m is_nx space (omega arith) (omega arith))
            rest
