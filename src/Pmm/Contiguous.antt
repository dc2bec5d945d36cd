-- ===== src/Pmm/Contiguous.antt =====
-- core/memory/pmm.c: pmm_alloc_contiguous takes a run of free frames, and finds one if there is
-- one.
use bomboclaat_os.Base.{
  ℕ, zero, suc, ◌+◌, ◌-◌, ◌*◌, ◌≤◌, ◌<◌, ◌≡◌, refl, ap, ◌∙◌, ◌⊎◌, inl, inr, true, false, ◌==◌,
  ==_iff, Bool-cases, arith, sym, false≢true,
}
use native.Mathlib.Decide.{dec_le, dec_lt}
use bomboclaat_os.Pmm.Map.{Pmm, page_size, word, is_used}
use bomboclaat_os.Pmm.Alloc.{take_frame, take_frames, contiguous_loop, pmm_alloc_contiguous}
use bomboclaat_os.Pmm.Frames.{IsValid, take_frame-Took}

-- Every frame of the `n` frames from `first` on is free.
abbrev pub FreeRun : Pmm → ℕ → ℕ → Type 0
FreeRun p first n = (g : ℕ) → first ≤ g → g < first + n → is_used p.bitmap g ≡ false

-- `q` is `p` with the `n` frames from `first` on taken.
pub record TookRun (p : Pmm) (first n : ℕ) (q : Pmm) : Type 0 where
  pub inside : (g : ℕ) → first ≤ g → g < first + n → is_used q.bitmap g ≡ true
  pub outside : (g : ℕ) → (g < first) ⊎ (first + n ≤ g) → is_used q.bitmap g ≡ is_used p.bitmap g
  pub counter : q.used_frames ≡ p.used_frames + n
  pub total : q.total_frames ≡ p.total_frames
  pub valid : IsValid q

take_frames-TookRun :
    (n first : ℕ) (p : Pmm)
    → IsValid p
    → first + n ≤ p.total_frames
    → FreeRun p first n
    → TookRun p first n (take_frames n first p)
unfolding take_frames
take_frames-TookRun zero first p v fits free = record {
  inside = λ g lo hi. absurd (omega arith);
  outside = λ g o. refl;
  counter = omega arith;
  total = refl;
  valid = v;
}
take_frames-TookRun (suc n) first p v fits free =
    let t = take_frame-Took p first v (omega arith) (free first (omega arith) (omega arith)) in
    let rest =
      take_frames-TookRun n (first + 1) (take_frame p first) t.valid (omega (arith, t.total))
        (λ g lo hi. ground (arith, t.frames g, free g)) in
    record {
      inside = λ g lo hi. elim (Bool-cases (first == g)) [
        | inl e ↦ rest.outside g (inl (ground arith)) ∙ ground (arith, t.frames g)
        | inr ne ↦ rest.inside g (ground arith) (omega arith)
      ];
      outside = λ g o. rest.outside g (ground arith) ∙ ground (arith, t.frames g);
      counter = omega (arith, rest.counter, t.counter);
      total = rest.total ∙ t.total;
      valid = rest.valid;
    }

-- What pmm_alloc_contiguous may return: null with no free run of that length, or the address of a
-- free run, which is taken.
abbrev pub ContiguousResult : Pmm → ℕ → ℕ × Pmm → Type 0
ContiguousResult p n (a, q) =
    ((a ≡ 0)
      × (q ≡ p)
      × ((first : ℕ) → 1 ≤ first → first + n ≤ p.total_frames → ¬ FreeRun p first n))
    ⊎ ((first : ℕ) × (a ≡ first * page_size)
        × (1 ≤ first)
        × (first + n ≤ p.total_frames)
        × FreeRun p first n
        × TookRun p first n q)

-- What the loop knows at frame `i`: the `run` frames below are free, the one before them is not,
-- and no run of `n` free frames ends below `i`.
record Scanned (p : Pmm) (n i run : ℕ) : Type 0 where
  short : run < n
  room : run + 1 ≤ i
  edge : (i ≡ run + 1) ⊎ (is_used p.bitmap (i - 1 - run) ≡ true)
  free : (g : ℕ) → i ≤ g + run → g < i → is_used p.bitmap g ≡ false
  none_yet : (first : ℕ) → 1 ≤ first → first + n ≤ i → ¬ FreeRun p first n

contiguous_loop-Result :
    (rounds n i run : ℕ) (p : Pmm)
    → IsValid p
    → Scanned p n i run
    → i + rounds ≡ p.total_frames
    → ContiguousResult p n (contiguous_loop rounds n i run p)
unfolding contiguous_loop
contiguous_loop-Result zero n i run p v s e =
    inl (refl, refl, λ first lo hi. s.none_yet first lo (omega arith))
contiguous_loop-Result (suc rounds) n i run p v s e = elim (Bool-cases (is_used p.bitmap i)) [
  | inl held ↦ rw held (
      contiguous_loop-Result rounds n (i + 1) 0 p v
        (record {
          short = omega (arith, s.short);
          room = omega arith;
          edge = inr (rw last held);
          free = λ g lo hi. absurd (omega arith);
          none_yet = λ first lo hi fr. no_run_over held first lo hi fr;
        })
        (omega arith))
  | inr free ↦ rw free (elim (Bool-cases (run + 1 == n)) [
    | inl full ↦ rw full (found ((==_iff _ n).0 full) free)
    | inr more ↦ rw more (
        contiguous_loop-Result rounds n (i + 1) (run + 1) p v
          (record {
            short = ground arith;
            room = omega (arith, s.room);
            edge = longer;
            free = λ g lo hi. ground (arith, s.free g);
            none_yet = λ first lo hi fr. too_short (ground arith) first lo hi fr s.edge;
          })
          (omega arith))
  ])
]
  where
    last : i + 1 - 1 - 0 ≡ i
    last = omega arith

    no_run_over :
        is_used p.bitmap i ≡ true
        → (first : ℕ) → 1 ≤ first
        → first + n ≤ i + 1
        → ¬ FreeRun p first n
    no_run_over held first lo hi fr = elim (dec_le (first + n) i) [
      | yes k ↦ s.none_yet first lo k fr
      | no k ↦ false≢true (sym (fr i (omega (arith, s.short)) (omega arith)) ∙ held)
    ]

    found :
        run + 1 ≡ n
        → is_used p.bitmap i ≡ false
        → ContiguousResult p n (word ((i + 1 - n) * page_size), take_frames n (i + 1 - n) p)
    found len free =
        let run_free : FreeRun p (i + 1 - n) n = λ g lo hi. elim (dec_lt g i) [
          | yes k ↦ s.free g (omega arith) k
          | no k ↦ let here : g ≡ i = omega (arith, s.room) in ap (is_used p.bitmap) here ∙ free
        ] in
        inr (
          i + 1 - n,
          omega (arith, v.small),
          omega (arith, s.room),
          omega (arith, s.room),
          run_free,
          take_frames-TookRun n (i + 1 - n) p v (omega (arith, s.room)) run_free,
        )

    longer : (i + 1 ≡ run + 1 + 1) ⊎ (is_used p.bitmap (i + 1 - 1 - (run + 1)) ≡ true)
    longer =
        let same : i + 1 - 1 - (run + 1) ≡ i - 1 - run = omega arith in
        elim s.edge [ inl e ↦ inl (omega arith) | inr e ↦ inr (ap (is_used p.bitmap) same ∙ e) ]

    too_short :
        run + 1 < n
        → (first : ℕ) → 1 ≤ first
        → first + n ≤ i + 1
        → FreeRun p first n
        → (i ≡ run + 1) ⊎ (is_used p.bitmap (i - 1 - run) ≡ true)
        → ⊥
    too_short more first lo hi fr edge = elim (dec_le (first + n) i) [
      | yes k ↦ s.none_yet first lo k fr
      | no k ↦ elim edge [
        | inl e ↦ omega arith
        | inr e ↦ false≢true (sym (fr (i - 1 - run) (omega arith) (omega (arith, s.room))) ∙ e)
      ]
    ]

-- For a positive count, pmm_alloc_contiguous returns null only if there is no run of `count`
-- free frames, and then changes nothing; otherwise it returns the address of such a run, takes
-- exactly those frames, and adds `count` to the counter.
pub pmm_alloc_contiguous-ContiguousResult :
    (p : Pmm) (n : ℕ)
    → IsValid p
    → 0 < p.total_frames
    → 0 < n
    → ContiguousResult p n (pmm_alloc_contiguous n p)
unfolding pmm_alloc_contiguous
pmm_alloc_contiguous-ContiguousResult p n v pos more =
    let nonzero : (n == 0) ≡ false = ground arith in
    rw nonzero (
      contiguous_loop-Result (p.total_frames - 1) n 1 0 p v
        (record {
          short = more;
          room = omega arith;
          edge = inl (omega arith);
          free = λ g lo hi. absurd (omega arith);
          none_yet = λ first lo hi fr. absurd (omega arith);
        })
        (omega arith))
