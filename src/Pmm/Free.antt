-- ===== src/Pmm/Free.antt =====
-- core/memory/pmm.c: pmm_free_frame on every path, allocation after it, and the free count.
use bomboclaat_os.Base.{
  ℕ, ◌+◌, ◌-◌, ◌*◌, ◌/◌, ◌%◌, ◌^◌, ◌≤◌, ◌<◌, ◌≡◌, refl, sym, ap, ◌∙◌, ◌≢◌, inl, inr, ◌↔◌, true,
  false, not, ◌&&◌, ◌==◌, ==_iff, leb, Bool-cases, arith, false≢true,
}
use bomboclaat_os.Pmm.Map.{Pmm, page_size, word, bitmap_unset, is_used, give_frame, get_free_frames}
use bomboclaat_os.Pmm.Alloc.{
  pmm_alloc_frame, FreeResult, freed, already_free, panic_unaligned, panic_too_high, pmm_free_frame,
}
use bomboclaat_os.Pmm.Bitmap.{bitmap_unset-AreBytes, length-bitmap_unset, is_used-bitmap_unset}
use bomboclaat_os.Pmm.Count.{count, count-le, count_erase}
use bomboclaat_os.Pmm.Frames.{IsValid, Took, AllocResult, pmm_alloc_frame-AllocResult}

-- `q` is `p` with the used frame `f` given back.
pub record Gave (p : Pmm) (f : ℕ) (q : Pmm) : Type 0 where
  pub was_used : is_used p.bitmap f ≡ true
  pub frames : (g : ℕ) → is_used q.bitmap g ≡ (not (f == g) && is_used p.bitmap g)
  pub counter : q.used_frames + 1 ≡ p.used_frames
  pub total : q.total_frames ≡ p.total_frames
  pub valid : IsValid q

pub give_frame-Gave :
    (p : Pmm) (f : ℕ)
    → IsValid p
    → f < p.total_frames
    → is_used p.bitmap f ≡ true
    → Gave p f (give_frame p f)
unfolding give_frame
give_frame-Gave p f v lt held =
    let law = λ (g : ℕ). is_used-bitmap_unset p.bitmap f g v.bytes (omega (arith, v.covers)) in
    let less =
      count_erase p.total_frames f (is_used p.bitmap) (is_used (bitmap_unset p.bitmap f)) lt held
        law in
    let counter : word (p.used_frames + 2 ^ 64 - 1) + 1 ≡ p.used_frames =
      omega (arith, v.counted, v.small, less, count-le p.total_frames (is_used p.bitmap)) in
    record {
      was_used = held;
      frames = law;
      counter = counter;
      total = refl;
      valid = record {
        bytes = bitmap_unset-AreBytes p.bitmap f v.bytes;
        covers = omega (arith, v.covers, length-bitmap_unset p.bitmap f);
        small = v.small;
        counted = omega (arith, counter, v.counted, less);
      };
    }

-- What each outcome of pmm_free_frame means.
abbrev pub FreeOutcome : Pmm → ℕ → FreeResult → Type 0
FreeOutcome p phys (freed q) =
    (phys ≡ phys / page_size * page_size)
    × (phys / page_size < p.total_frames)
    × Gave p (phys / page_size) q
FreeOutcome p phys (already_free q) =
    (phys ≡ phys / page_size * page_size)
    × (phys / page_size < p.total_frames)
    × (is_used p.bitmap (phys / page_size) ≡ false)
    × (q ≡ p)
FreeOutcome p phys panic_unaligned = phys % page_size ≢ 0
FreeOutcome p phys panic_too_high = (phys % page_size ≡ 0) × (p.total_frames * page_size ≤ phys)

-- pmm_free_frame panics on an unaligned address and on one behind the last frame; it leaves
-- everything alone when the frame is free; else it frees that frame and no other, and keeps the
-- allocator valid with the counter one lower.
pub pmm_free_frame-FreeOutcome :
    (p : Pmm) (phys : ℕ) → IsValid p → FreeOutcome p phys (pmm_free_frame phys p)
unfolding pmm_free_frame
pmm_free_frame-FreeOutcome p phys v =
    let fits : word (p.total_frames * page_size) ≡ p.total_frames * page_size =
      omega (arith, v.small) in
    elim (Bool-cases (phys % page_size == 0)) [
      | inr odd ↦ rw odd (ground arith)
      | inl aligned ↦
          rw (aligned, fits)
            (elim (Bool-cases (leb (p.total_frames * page_size) phys)) [
              | inl high ↦ rw high (ground arith)
              | inr low ↦ rw low (elim (Bool-cases (is_used p.bitmap (phys / page_size))) [
                | inr unused ↦ rw unused (ground arith, ground arith, unused, refl)
                | inl held ↦ rw held (
                  ground arith,
                  ground arith,
                  give_frame-Gave p (phys / page_size) v (ground arith) held,
                )
              ])
            ])
    ]

-- `q` has the same used frames and the same counters as `p`.
pub record SameFrames (p q : Pmm) : Type 0 where
  pub frames : (g : ℕ) → is_used q.bitmap g ≡ is_used p.bitmap g
  pub counter : q.used_frames ≡ p.used_frames
  pub total : q.total_frames ≡ p.total_frames

SameFrames-of : (p q r : Pmm) (f : ℕ) → Took p f q → Gave q f r → SameFrames p r
SameFrames-of p q r f t g = record {
  frames = λ h. elim (Bool-cases (f == h)) [
    | inl e ↦
        let same : f ≡ h = (==_iff f h).0 e in
        rw (g.frames h, e) (sym t.was_free ∙ ap (is_used p.bitmap) same)
    | inr ne ↦ rw (g.frames h, t.frames h, ne)
  ];
  counter = omega (arith, t.counter, g.counter);
  total = g.total ∙ t.total;
}

-- A frame that pmm_alloc_frame has just returned can be freed, and that undoes the allocation:
-- the same frames are used, with the same counter.
pub pmm_free_frame-pmm_alloc_frame :
    (p : Pmm) {a : ℕ} {q : Pmm}
    → IsValid p
    → 0 < p.total_frames
    → pmm_alloc_frame p ≡ (a, q)
    → a ≢ 0
    → (r : Pmm) × (pmm_free_frame a q ≡ freed r) × SameFrames p r × IsValid r
pmm_free_frame-pmm_alloc_frame p {a} {q} v pos e ne =
    undo a q (rw e at (pmm_alloc_frame-AllocResult p v pos)) ne
  where
    undo :
        (a : ℕ) (q : Pmm)
        → AllocResult p 1 (a, q)
        → a ≢ 0
        → (r : Pmm) × (pmm_free_frame a q ≡ freed r) × SameFrames p r × IsValid r
    undo a q (inl (n, _, _)) ne = absurd (ne n)
    undo a q (inr (f, at, lo, hi, _, t)) ne =
        settle (pmm_free_frame a q) refl (pmm_free_frame-FreeOutcome q a t.valid)
      where
        held : is_used q.bitmap f ≡ true
        held = rw (t.frames f, (==_iff f f).1 refl)

        quotient : a / page_size ≡ f
        quotient = omega arith

        settle :
            (o : FreeResult)
            → pmm_free_frame a q ≡ o
            → FreeOutcome q a o
            → (r : Pmm) × (pmm_free_frame a q ≡ freed r) × SameFrames p r × IsValid r
        settle (freed r) eq (_, _, g) = (r, eq, SameFrames-of p q r f t (rw quotient at g), g.valid)
        settle (already_free r) eq (_, _, out, _) =
            let out' : is_used q.bitmap f ≡ false = rw quotient at out in
            absurd (false≢true (sym out' ∙ held))
        settle panic_unaligned eq odd = absurd (odd (omega arith))
        settle panic_too_high eq (_, high) = absurd (omega (arith, t.total))

-- get_free_frames subtracts the count of all used frames, those outside usable memory included,
-- from the count of usable frames: it is the number of free frames exactly when every frame of
-- the machine is usable.
pub get_free_frames_exact_iff :
    (p : Pmm)
    → IsValid p
    → p.usable_frames ≤ p.total_frames
    → (get_free_frames p ≡ p.total_frames - count p.total_frames (is_used p.bitmap))
      ↔ (p.usable_frames ≡ p.total_frames)
unfolding get_free_frames
get_free_frames_exact_iff p v le = (
  (λ e. omega (arith, v.counted, v.small, count-le p.total_frames (is_used p.bitmap))),
  (λ e. omega (arith, v.counted, v.small, count-le p.total_frames (is_used p.bitmap))),
)
