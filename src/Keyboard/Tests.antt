-- ===== src/Keyboard/Tests.antt =====
-- core/drivers/keyboard.c: a buffer of two codes, and one that is nearly full.
use bomboclaat_os.Base.{
  ℕ, ◌%◌, ◌≡◌, refl, [], ◌∷◌, replicate, length-replicate, take, drop, map, arith,
}
use bomboclaat_os.Stack.{pop}
use bomboclaat_os.Keyboard.{Kbd, keyboard_read, get_ascii}
use bomboclaat_os.Keyboard.Buffer.{IsValid, codes, keyboard_read-codes}

abbrev two_codes : Kbd
two_codes = record {
  data_stack = record { arr = 0 ∷ 30 ∷ 158 ∷ replicate 1021 0; top = 2 };
  data_stack_size = 2;
}

abbrev nearly_full : Kbd
nearly_full = record {
  data_stack = record { arr = replicate 1024 30; top = 1023 };
  data_stack_size = 1023;
}

two_codes-IsValid : IsValid two_codes
two_codes-IsValid = record {
  sized = omega (arith, length-replicate 1021 (let b : ℕ = 0 in b));
  counted = refl;
  inside = omega arith;
}

nearly_full-IsValid : IsValid nearly_full
nearly_full-IsValid = record {
  sized = omega (arith, length-replicate 1024 (let b : ℕ = 30 in b));
  counted = refl;
  inside = omega arith;
}

codes_two : codes two_codes ≡ 158 ∷ 30 ∷ []
codes_two = refl

read_newest : (keyboard_read 1 two_codes).0 ≡ 158 ∷ []
unfolding keyboard_read pop
read_newest = refl

-- The keys A and 1, with Shift, with Caps Lock, and with both.
ascii_keys :
    (get_ascii 1 0 30 ≡ b'A')
    × (get_ascii 0 1 30 ≡ b'A')
    × (get_ascii 1 1 30 ≡ b'a')
    × (get_ascii 0 1 2 ≡ b'1')
unfolding get_ascii
ascii_keys = (refl, refl, refl, refl)

keyboard_read-codes_example :
    let (bytes, k') = keyboard_read 1 two_codes in
    (bytes ≡ map (λ c. c % 256) (take 1 (codes two_codes)))
    × (codes k' ≡ drop 1 (codes two_codes))
    × IsValid k'
keyboard_read-codes_example = keyboard_read-codes 1 two_codes two_codes-IsValid
