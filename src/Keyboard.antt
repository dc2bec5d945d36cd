-- ===== src/Keyboard.antt =====
-- core/drivers/keyboard.c: the scan-code buffer of the keyboard device, and get_ascii.
pub mod Buffer
pub mod Ascii
pub mod Tests
use bomboclaat_os.Base.{
  ℕ, zero, suc, ◌+◌, ◌-◌, ◌%◌, ◌^◌, Bool, true, false, ◌&&◌, List, [], ◌∷◌, ◌==◌, ltb, leb,
  if◌then◌else◌, get_or, set, bit_xor,
}
use bomboclaat_os.Stack.{Stack, max_size, push, pop}

-- The fields of `dev_t *kbd` that change.
pub record Kbd : Type 0 where
  pub data_stack : Stack
  pub data_stack_size : ℕ

-- `memset(arr, 0, MAX_SIZE)` clears 1024 bytes: the first 128 words.
abbrev pub clear_words : ℕ → List ℕ → List ℕ
clear_words zero xs = xs
clear_words (suc n) [] = []
clear_words (suc n) (x ∷ xs) = 0 ∷ clear_words n xs

unfoldable pub reset : Kbd → Kbd
reset k = record {
  data_stack = record { arr = clear_words 128 k.data_stack.arr; top = 0 };
  data_stack_size = 0;
}

-- `scancode` is what `inb(0x60)` returned.
unfoldable pub keyboard_handler : ℕ → Kbd → Kbd
unfolding reset
keyboard_handler scancode k =
    let k' = if k.data_stack_size == max_size then reset k else k in
    record {
      data_stack = push k'.data_stack scancode;
      data_stack_size = (k'.data_stack_size + 1) % 2 ^ 64;
    }

-- The loop of keyboard_read, for `size` bytes at most: the bytes that it writes, in order.
unfoldable pub keyboard_read : ℕ → Kbd → List ℕ × Kbd
keyboard_read zero k = ([], k)
keyboard_read (suc size) k =
    let (word, stack) = pop k.data_stack in
    let (bytes, k') =
      keyboard_read size (record { data_stack = stack; data_stack_size = k.data_stack_size - 1 }) in
    if k.data_stack_size == 0 then ([], k) else ((word % 256) ∷ bytes, k')

abbrev pub map_lower : List ℕ
map_lower =
    0 ∷ 27 ∷ b'1' ∷ b'2' ∷ b'3' ∷ b'4' ∷ b'5' ∷ b'6' ∷ b'7' ∷ b'8' ∷ b'9' ∷ b'0' ∷ b'-' ∷ b'=' ∷ 8
    ∷ 9 ∷ b'q' ∷ b'w' ∷ b'e' ∷ b'r' ∷ b't' ∷ b'y' ∷ b'u' ∷ b'i' ∷ b'o' ∷ b'p' ∷ b'[' ∷ b']' ∷ 10 ∷ 0
    ∷ b'a' ∷ b's' ∷ b'd' ∷ b'f' ∷ b'g' ∷ b'h' ∷ b'j' ∷ b'k' ∷ b'l' ∷ b';' ∷ 39 ∷ b'`' ∷ 0 ∷ 92
    ∷ b'z' ∷ b'x' ∷ b'c' ∷ b'v' ∷ b'b' ∷ b'n' ∷ b'm' ∷ b',' ∷ b'.' ∷ b'/' ∷ 0 ∷ b'*' ∷ 0 ∷ b' ' ∷ []

abbrev pub map_upper : List ℕ
map_upper =
    0 ∷ 27 ∷ b'!' ∷ b'@' ∷ b'#' ∷ b'$' ∷ b'%' ∷ b'^' ∷ b'&' ∷ b'*' ∷ b'(' ∷ b')' ∷ b'_' ∷ b'+' ∷ 8
    ∷ 9 ∷ b'Q' ∷ b'W' ∷ b'E' ∷ b'R' ∷ b'T' ∷ b'Y' ∷ b'U' ∷ b'I' ∷ b'O' ∷ b'P' ∷ b'{' ∷ b'}' ∷ 10 ∷ 0
    ∷ b'A' ∷ b'S' ∷ b'D' ∷ b'F' ∷ b'G' ∷ b'H' ∷ b'J' ∷ b'K' ∷ b'L' ∷ b':' ∷ 34 ∷ b'~' ∷ 0 ∷ b'|'
    ∷ b'Z' ∷ b'X' ∷ b'C' ∷ b'V' ∷ b'B' ∷ b'N' ∷ b'M' ∷ b'<' ∷ b'>' ∷ b'?' ∷ 0 ∷ b'*' ∷ 0 ∷ b' ' ∷ []

-- `shift_pressed` and `caps_lock` are 0 or 1.
unfoldable pub get_ascii : (shift_pressed caps_lock scancode : ℕ) → ℕ
get_ascii shift_pressed caps_lock scancode =
    let c = get_or map_lower scancode 0 in
    if leb 58 scancode
    then 0
    else if leb b'a' c && leb c b'z'
    then if bit_xor shift_pressed caps_lock == 0
      then get_or map_lower scancode 0
      else get_or map_upper scancode 0
    else if shift_pressed == 0
    then get_or map_lower scancode 0
    else get_or map_upper scancode 0
