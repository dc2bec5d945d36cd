-- ===== src/Keyboard/Ascii.antt =====
-- core/drivers/keyboard.c: how Shift and Caps Lock act in get_ascii.
use bomboclaat_os.Base.{
  ℕ, ◌-◌, ◌*◌, ◌<◌, ◌≡◌, refl, Bool, true, ◌&&◌, ◌==◌, ==_iff, leb, if◌then◌else◌, get_or, bit_xor,
}
use bomboclaat_os.Base.Bits.{check_below, check_below_sound}
use bomboclaat_os.Keyboard.{map_lower, get_ascii}

abbrev pub is_letter : ℕ → Bool
is_letter scancode =
    leb b'a' (get_or map_lower scancode 0) && leb (get_or map_lower scancode 0) b'z'

table :
    check_below 2 (λ s. check_below 2 (λ c. check_below 256 (λ code. get_ascii s c code == (
      if is_letter code then get_or map_lower code 0 - 32 * bit_xor s c else get_ascii s 0 code))))
    ≡ true
unfolding check_below get_ascii
table = refl

-- For the letter keys exactly one of Shift and Caps Lock gives the capital, and both together the
-- small letter; on every other key Caps Lock does nothing.
pub get_ascii-caps_lock :
    (shift_pressed caps_lock scancode : ℕ)
    → shift_pressed < 2
    → caps_lock < 2
    → scancode < 256
    → get_ascii shift_pressed caps_lock scancode ≡ (
        if is_letter scancode
        then get_or map_lower scancode 0 - 32 * bit_xor shift_pressed caps_lock
        else get_ascii shift_pressed 0 scancode)
get_ascii-caps_lock s c code hs hc h =
    (==_iff _ _).0 (
      check_below_sound 256 _ code (check_below_sound 2 _ c (check_below_sound 2 _ s table hs) hc)
        h)
