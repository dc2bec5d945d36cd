-- ===== src/Pmm/Release.antt =====
-- core/memory/pmm.c: the third loop of pmm_init, which releases the usable frames.
use bomboclaat_os.Base.{
  ℕ, zero, suc, ◌+◌, ◌*◌, ◌/◌, ◌%◌, ◌^◌, ◌≤◌, ◌<◌, ◌≡◌, refl, ◌∙◌, inl, inr, Bool, true, false, not,
  ◌&&◌, ◌||◌, ◌==◌, ltb, leb, ==_iff, if◌then◌else◌, Bool-cases, List, [], ◌∷◌, arith,
}
use bomboclaat_os.Pmm.Map.{Pmm, page_size, word, is_used}
use bomboclaat_os.Pmm.Boot.{Entry, memmap_usable, release, release_pages, pages, release_entries}
use bomboclaat_os.Pmm.Frames.{IsValid}
use bomboclaat_os.Pmm.Free.{give_frame-Gave}

-- What the boot protocol guarantees of the entries: none wraps, and the usable ones are aligned
-- to pages, sorted by address, and do not overlap.
abbrev pub IsMap : ℕ → List Entry → Type 0
IsMap from [] = Unit {0}
IsMap from (e ∷ es) =
    (e.base + e.length < 2 ^ 64)
    × ((e.type == memmap_usable) ≡ true
        → (from ≤ e.base) × (e.base % page_size ≡ 0) × (e.length % page_size ≡ 0))
    × IsMap (if e.type == memmap_usable then e.base + e.length else from) es

-- Frame `g` is one of the `k` frames from `f` on.
abbrev pub within : ℕ → ℕ → ℕ → Bool
within f k g = leb f g && ltb g (f + k)

-- Frame `g` lies in a usable entry.
abbrev pub in_usable : List Entry → ℕ → Bool
in_usable [] g = false
in_usable (e ∷ es) g =
    ((e.type == memmap_usable) && within (e.base / page_size) (e.length / page_size) g)
    || in_usable es g

-- Frame `g` begins in the bitmap of `size` bytes at `at`.
abbrev pub in_bitmap : ℕ → ℕ → ℕ → Bool
in_bitmap at size g = leb at (g * page_size) && ltb (g * page_size) (word (at + size))

-- Every usable entry ends below frame `total`.
abbrev pub EndsBelow : ℕ → List Entry → Type 0
EndsBelow total [] = Unit {0}
EndsBelow total (e ∷ es) =
    ((e.type == memmap_usable) ≡ true → e.base / page_size + e.length / page_size ≤ total)
    × EndsBelow total es

-- `q` is `p` with those frames freed that `P` holds of and the bitmap does not lie in.
pub record Released (at size : ℕ) (p : Pmm) (P : ℕ → Bool) (q : Pmm) : Type 0 where
  pub frames :
      (g : ℕ) → is_used q.bitmap g ≡ (is_used p.bitmap g && not (P g && not (in_bitmap at size g)))
  pub total : q.total_frames ≡ p.total_frames
  pub valid : IsValid q

module _ (at size : ℕ) where
  release-Released :
      (f : ℕ) (p : Pmm)
      → IsValid p
      → f < p.total_frames
      → is_used p.bitmap f ≡ true
      → Released at size p (λ g. f == g) (release at size (f * page_size) p)
  unfolding release
  release-Released f p v lt held = elim (Bool-cases (in_bitmap at size f)) [
    | inl spared ↦ rw spared (record {
      frames = λ g. elim (Bool-cases (f == g)) [
        | inl e ↦
            let same : f ≡ g = (==_iff f g).0 e in
            let there : in_bitmap at size g ≡ true = rw (← same) spared in
            rw (e, there) (ground arith)
        | inr ne ↦ rw ne (ground arith)
      ];
      total = refl;
      valid = v;
    })
    | inr gone ↦
        let quotient : f * page_size / page_size ≡ f = omega arith in
        let gave = give_frame-Gave p f v lt held in
        rw (gone, quotient)
          (record {
            frames = λ g. elim (Bool-cases (f == g)) [
              | inl e ↦
                  let same : f ≡ g = (==_iff f g).0 e in
                  let there : in_bitmap at size g ≡ false = rw (← same) gone in
                  rw (gave.frames g, e, there) (ground arith)
              | inr ne ↦ rw (gave.frames g, ne) (ground arith)
            ];
            total = gave.total;
            valid = gave.valid;
          })
  ]

  release_pages-Released :
      (k f : ℕ) (p : Pmm)
      → IsValid p
      → f + k ≤ p.total_frames
      → ((g : ℕ) → f ≤ g → g < f + k → is_used p.bitmap g ≡ true)
      → Released at size p (within f k) (release_pages k at size (f * page_size) p)
  unfolding release_pages
  release_pages-Released zero f p v fits held = record {
    frames = λ g. ground arith;
    total = refl;
    valid = v;
  }
  release_pages-Released (suc k) f p v fits held =
      let one = release-Released f p v (omega arith) (held f (omega arith) (omega arith)) in
      let next : f * page_size + page_size ≡ (f + 1) * page_size = omega arith in
      let rest =
        release_pages-Released k (f + 1) (release at size (f * page_size) p) one.valid
          (omega (arith, one.total)) (λ g lo hi. ground (arith, one.frames g, held g)) in
      rw next (record {
        frames = λ g. ground (arith, rest.frames g, one.frames g);
        total = rest.total ∙ one.total;
        valid = rest.valid;
      })

  pages_lem :
      (e : Entry)
      → e.base + e.length < 2 ^ 64
      → e.length % page_size ≡ 0
      → pages e ≡ e.length / page_size
  pages_lem e h k = omega arith

  pub release_entries-Released :
      (es : List Entry) (from : ℕ) (p : Pmm)
      → IsMap from es
      → IsValid p
      → EndsBelow p.total_frames es
      → ((g : ℕ) → from ≤ g * page_size → g < p.total_frames → is_used p.bitmap g ≡ true)
      → Released at size p (in_usable es) (release_entries es at size p)
  unfolding release_entries
  release_entries-Released [] from p m v ends held = record {
    frames = λ g. ground arith;
    total = refl;
    valid = v;
  }
  release_entries-Released (e ∷ es) from p m v ends held =
      elim (Bool-cases (e.type == memmap_usable)) [
        | inr other ↦
            let rest = release_entries-Released es from p (rw other at (m.2)) v ends.1 held in
            rw other (record {
              frames = λ g. ground (arith, rest.frames g);
              total = rest.total;
              valid = rest.valid;
            })
        | inl usable ↦
            let (lo, ab, al) = m.1 usable in
            let f = e.base / page_size in
            let k = e.length / page_size in
            let start : f * page_size ≡ e.base = omega arith in
            let one =
              release_pages-Released k f p v (ends.0 usable)
                (λ g low high. held g (omega arith) (omega (arith, ends.0 usable))) in
            let q = release_pages k at size (f * page_size) p in
            let rest =
              release_entries-Released es (e.base + e.length) q (rw usable at (m.2)) one.valid
                (rw one.total ends.1)
                (λ g low high.
                  let outside : within f k g ≡ false = ground arith in
                  one.frames g ∙ ground (arith, held g (omega arith) (omega (arith, one.total)))) in
            rw (usable, pages_lem e m.0 al, ← start)
              (record {
                frames = λ g. ground (arith, rest.frames g, one.frames g);
                total = rest.total ∙ one.total;
                valid = rest.valid;
              })
      ]
