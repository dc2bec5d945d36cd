-- ===== src/Pmm/Frames.antt =====
-- core/memory/pmm.c: what pmm_alloc_frame and pmm_free_frame do to the set of used frames.
use bomboclaat_os.Base.{
  ℕ, zero, suc, ◌+◌, ◌-◌, ◌*◌, ◌^◌, ◌≤◌, ◌<◌, ◌≡◌, refl, ◌⊎◌, inl, inr, true, false, ◌||◌, ◌==◌,
  Bool-cases, length, arith,
}
use bomboclaat_os.Pmm.Map.{Pmm, page_size, word, bitmap_set, is_used}
use bomboclaat_os.Pmm.Alloc.{take_frame, alloc_loop, pmm_alloc_frame}
use bomboclaat_os.Pmm.Bitmap.{AreBytes, bitmap_set-AreBytes, length-bitmap_set, is_used-bitmap_set}
use bomboclaat_os.Pmm.Count.{count, count-le, count_insert}

-- The bitmap covers every frame, and the counter is the number of used frames.
pub record IsValid (p : Pmm) : Type 0 where
  pub bytes : AreBytes p.bitmap
  pub covers : p.total_frames ≤ 8 * length p.bitmap
  pub small : p.total_frames < 2 ^ 52
  pub counted : p.used_frames ≡ count p.total_frames (is_used p.bitmap)

-- `q` is `p` with the free frame `f` taken.
pub record Took (p : Pmm) (f : ℕ) (q : Pmm) : Type 0 where
  pub was_free : is_used p.bitmap f ≡ false
  pub frames : (g : ℕ) → is_used q.bitmap g ≡ ((f == g) || is_used p.bitmap g)
  pub counter : q.used_frames ≡ p.used_frames + 1
  pub total : q.total_frames ≡ p.total_frames
  pub valid : IsValid q

pub take_frame-Took :
    (p : Pmm) (f : ℕ)
    → IsValid p
    → f < p.total_frames
    → is_used p.bitmap f ≡ false
    → Took p f (take_frame p f)
unfolding take_frame
take_frame-Took p f v lt free =
    let law = λ (g : ℕ). is_used-bitmap_set p.bitmap f g v.bytes (omega (arith, v.covers)) in
    let more =
      count_insert p.total_frames f (is_used p.bitmap) (is_used (bitmap_set p.bitmap f)) lt free
        law in
    let counter : word (p.used_frames + 1) ≡ p.used_frames + 1 =
      omega (arith, v.counted, v.small, count-le p.total_frames (is_used p.bitmap)) in
    record {
      was_free = free;
      frames = law;
      counter = counter;
      total = refl;
      valid = record {
        bytes = bitmap_set-AreBytes p.bitmap f v.bytes;
        covers = omega (arith, v.covers, length-bitmap_set p.bitmap f);
        small = v.small;
        counted = omega (arith, counter, v.counted, more);
      };
    }

-- What pmm_alloc_frame may return: null with every frame in use, or the lowest free frame.
abbrev pub AllocResult : Pmm → ℕ → ℕ × Pmm → Type 0
AllocResult p from (a, q) =
    ((a ≡ 0) × (q ≡ p) × ((g : ℕ) → from ≤ g → g < p.total_frames → is_used p.bitmap g ≡ true))
    ⊎ ((f : ℕ) × (a ≡ f * page_size)
        × (from ≤ f)
        × (f < p.total_frames)
        × ((g : ℕ) → from ≤ g → g < f → is_used p.bitmap g ≡ true)
        × Took p f q)

AllocResult-step :
    (p : Pmm) (i : ℕ) (r : ℕ × Pmm)
    → is_used p.bitmap i ≡ true
    → AllocResult p (i + 1) r
    → AllocResult p i r
AllocResult-step p i (a, q) held (inl (n, same, all)) = inl (
  n,
  same,
  λ g h k. elim (Bool-cases (i == g)) [ inl e ↦ ground arith | inr ne ↦ all g (ground arith) k ],
)
AllocResult-step p i (a, q) held (inr (f, e, lo, hi, all, t)) = inr (
  f,
  e,
  omega arith,
  hi,
  (λ g h k. elim (Bool-cases (i == g)) [ inl e ↦ ground arith | inr ne ↦ all g (ground arith) k ]),
  t,
)

alloc_loop-AllocResult :
    (rounds i : ℕ) (p : Pmm)
    → IsValid p
    → i + rounds ≡ p.total_frames
    → AllocResult p i (alloc_loop rounds i p)
unfolding alloc_loop
alloc_loop-AllocResult zero i p v e = inl (refl, refl, λ g h k. absurd (omega arith))
alloc_loop-AllocResult (suc rounds) i p v e = elim (Bool-cases (is_used p.bitmap i)) [
  | inl held ↦
      rw held
        (AllocResult-step p i _ held (alloc_loop-AllocResult rounds (i + 1) p v (omega arith)))
  | inr free ↦ rw free (
      inr (
        i,
        omega (arith, v.small),
        omega arith,
        omega arith,
        (λ g h k. absurd (omega arith)),
        take_frame-Took p i v (omega arith) free,
      ))
]

-- pmm_alloc_frame returns null exactly when frames 1 and up are all in use, and then changes
-- nothing; otherwise it returns the address of the lowest free frame, which is taken, and every
-- other frame stays as it was.
pub pmm_alloc_frame-AllocResult :
    (p : Pmm) → IsValid p → 0 < p.total_frames → AllocResult p 1 (pmm_alloc_frame p)
unfolding pmm_alloc_frame
pmm_alloc_frame-AllocResult p v h = alloc_loop-AllocResult (p.total_frames - 1) 1 p v (omega arith)
