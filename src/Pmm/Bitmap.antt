-- ===== src/Pmm/Bitmap.antt =====
-- core/memory/pmm.c: the bitmap as a set of frames. Setting and clearing a frame's bit changes
-- that frame and no other, though eight frames share a byte.
use bomboclaat_os.Base.{
  ℕ, ◌/◌, ◌%◌, ◌<◌, ◌≡◌, ap, ◌∙◌, ◌≢◌, inl, inr, false, not, ◌&&◌, ◌||◌, ◌==◌, ==_iff, ==_false,
  Bool-cases, List, length, get_or, All, All-set, All-get_or, length-set, get_or-set_self,
  get_or-set_ne, arith,
}
use bomboclaat_os.Base.Bits.{bit_at, bit_at-bit_or, bit_at-bit_and}
use bomboclaat_os.Pmm.Map.{bitmap_set, bitmap_unset, is_used}

abbrev pub AreBytes : List ℕ → Type 0
AreBytes bm = All (λ b. b < 256) bm

pub bitmap_set-AreBytes : (bm : List ℕ) (f : ℕ) → AreBytes bm → AreBytes (bitmap_set bm f)
unfolding bitmap_set
bitmap_set-AreBytes bm f h = All-set (λ b. b < 256) bm (f / 8) _ h (omega arith)

pub bitmap_unset-AreBytes : (bm : List ℕ) (f : ℕ) → AreBytes bm → AreBytes (bitmap_unset bm f)
unfolding bitmap_unset
bitmap_unset-AreBytes bm f h = All-set (λ b. b < 256) bm (f / 8) _ h (omega arith)

pub length-bitmap_set : (bm : List ℕ) (f : ℕ) → length (bitmap_set bm f) ≡ length bm
unfolding bitmap_set
length-bitmap_set bm f = length-set bm (f / 8) _

pub length-bitmap_unset : (bm : List ℕ) (f : ℕ) → length (bitmap_unset bm f) ≡ length bm
unfolding bitmap_unset
length-bitmap_unset bm f = length-set bm (f / 8) _

same_byte : (f g : ℕ) → f / 8 ≡ g / 8 → (f % 8 == g % 8) ≡ (f == g)
same_byte f g e = ground arith

other_byte : (f g : ℕ) → f / 8 ≢ g / 8 → (f == g) ≡ false
other_byte f g n = ==_false f g (λ e. n (ap (λ k. k / 8) e))

-- After `bitmap_set` of a frame that the bitmap covers, exactly that frame is used besides those
-- that were.
pub is_used-bitmap_set :
    (bm : List ℕ) (f g : ℕ)
    → AreBytes bm
    → f / 8 < length bm
    → is_used (bitmap_set bm f) g ≡ ((f == g) || is_used bm g)
unfolding bitmap_set is_used
is_used-bitmap_set bm f g h lt = elim (Bool-cases (f / 8 == g / 8)) [
  | inl e ↦
      let same : f / 8 ≡ g / 8 = (==_iff _ _).0 e in
      rw (← same, get_or-set_self bm (f / 8) _ 0 lt)
        (bit_at-bit_or (get_or bm (f / 8) 0) (f % 8) (g % 8)
            (All-get_or (λ b. b < 256) bm (f / 8) 0 h (omega arith)) (omega arith) (omega arith)
          ∙ ap (λ t. t || bit_at (get_or bm (f / 8) 0) (g % 8)) (same_byte f g same))
  | inr n ↦
      let other : f / 8 ≢ g / 8 = ground arith in
      rw (get_or-set_ne bm (f / 8) (g / 8) _ 0 other, other_byte f g other)
]

-- After `bitmap_unset`, exactly that frame is no longer used.
pub is_used-bitmap_unset :
    (bm : List ℕ) (f g : ℕ)
    → AreBytes bm
    → f / 8 < length bm
    → is_used (bitmap_unset bm f) g ≡ (not (f == g) && is_used bm g)
unfolding bitmap_unset is_used
is_used-bitmap_unset bm f g h lt = elim (Bool-cases (f / 8 == g / 8)) [
  | inl e ↦
      let same : f / 8 ≡ g / 8 = (==_iff _ _).0 e in
      rw (← same, get_or-set_self bm (f / 8) _ 0 lt)
        (bit_at-bit_and (get_or bm (f / 8) 0) (f % 8) (g % 8)
            (All-get_or (λ b. b < 256) bm (f / 8) 0 h (omega arith)) (omega arith) (omega arith)
          ∙ ap (λ t. not t && bit_at (get_or bm (f / 8) 0) (g % 8)) (same_byte f g same))
  | inr n ↦
      let other : f / 8 ≢ g / 8 = ground arith in
      rw (get_or-set_ne bm (f / 8) (g / 8) _ 0 other, other_byte f g other)
]
