-- ===== src/Pmm/Map.antt =====
-- core/memory/pmm.c: the globals, and the accessors of the bitmap.
use bomboclaat_os.Base.{ℕ, ◌+◌, ◌-◌, ◌/◌, ◌%◌, ◌^◌, Bool, List, get_or, set, bit_and, bit_or}
use bomboclaat_os.Base.Bits.{bit_at}

pub record Pmm : Type 0 where
  pub bitmap : List ℕ
  pub total_frames : ℕ
  pub used_frames : ℕ
  pub usable_frames : ℕ

abbrev pub page_size : ℕ
page_size = 4096

-- `uintptr_t` is 64 bits wide.
abbrev pub word : ℕ → ℕ
word n = n % 2 ^ 64

-- `bitmap[frame / 8] |= (1ULL << (frame % 8))`
unfoldable pub bitmap_set : List ℕ → ℕ → List ℕ
bitmap_set bm frame = set bm (frame / 8) (bit_or (get_or bm (frame / 8) 0) (2 ^ (frame % 8)) % 256)

-- `bitmap[frame / 8] &= ~(1ULL << (frame % 8))`
unfoldable pub bitmap_unset : List ℕ → ℕ → List ℕ
bitmap_unset bm frame =
    set bm (frame / 8) (bit_and (get_or bm (frame / 8) 0) (2 ^ 64 - 1 - 2 ^ (frame % 8)) % 256)

-- `(bitmap[frame / 8] & (1 << (frame % 8))) != 0`
unfoldable pub is_used : List ℕ → ℕ → Bool
is_used bm frame = bit_at (get_or bm (frame / 8) 0) (frame % 8)

unfoldable pub get_total_frames : Pmm → ℕ
get_total_frames p = p.usable_frames

unfoldable pub get_free_frames : Pmm → ℕ
get_free_frames p = (p.usable_frames + 2 ^ 64 - p.used_frames) % 2 ^ 64

-- `bitmap_unset(frame); used_frames--;`
unfoldable pub give_frame : Pmm → ℕ → Pmm
give_frame p frame = record p {
  bitmap = bitmap_unset p.bitmap frame;
  used_frames = word (p.used_frames + 2 ^ 64 - 1);
}
