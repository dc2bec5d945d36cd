-- ===== src/Kprintf.antt =====
-- core/kprintf.c: numbers in decimal and hexadecimal, and the loop over the format.
-- What a function writes from *ptr on is the list of its bytes. The arguments are a list, of which a
-- conversion takes one; one that is missing or of the other kind is `none`.
mod Digits
pub mod Counted
mod Printed
pub mod Format
mod Tests
unfoldable pub use Digits.*
use bomboclaat_os.Base.{
  ℕ, zero, suc, ◌+◌, ◌-◌, ◌*◌, ◌/◌, ◌%◌, ◌^◌, Bool, true, false, ◌&&◌, ◌||◌, Option, none, some,
  List, [], ◌∷◌, ◌++◌, ◌==◌, leb, if◌then◌else◌, length,
}

pub data Arg : Type 0 where
  number : ℕ → Arg
  text : List ℕ → Arg

-- What stands between the percent sign and the conversion, the conversion, and the format behind it.
pub record Conversion : Type 0 where
  pub pad_char : ℕ
  pub arg_width : ℕ
  pub conversion : ℕ
  pub rest : List ℕ

abbrev is_digit : ℕ → Bool
is_digit c = leb b'0' c && leb c b'9'

-- The digits of the width, and the format behind them.
unfoldable pub read_width : List ℕ → ℕ → ℕ × List ℕ
read_width [] width = (width, [])
read_width (c ∷ cs) width =
    let rest = read_width cs ((width * 10 % 2 ^ 32 + (c - b'0')) % 2 ^ 32) in
    if is_digit c then rest else (width, c ∷ cs)

-- One `l`, if it is there.
abbrev skip_l : List ℕ → List ℕ
skip_l [] = []
skip_l (c ∷ cs) = if c == b'l' then cs else c ∷ cs

-- At the end the conversion is the zero byte.
abbrev with_conversion : ℕ → ℕ → List ℕ → Conversion
with_conversion pad width [] = record {
  pad_char = pad;
  arg_width = width;
  conversion = 0;
  rest = [];
}
with_conversion pad width (c ∷ cs) = record {
  pad_char = pad;
  arg_width = width;
  conversion = c;
  rest = cs;
}

abbrev with_pad : ℕ → List ℕ → Conversion
with_pad pad fmt =
    let (width, rest) = read_width fmt 0 in with_conversion pad width (skip_l (skip_l rest))

abbrev pub read_conversion : List ℕ → Conversion
read_conversion [] = with_pad b' ' []
read_conversion (c ∷ cs) = if c == b'0' then with_pad b'0' cs else with_pad b' ' (c ∷ cs)

abbrev print_number : Conversion → ℕ → Option (List ℕ)
print_number c value =
    if c.conversion == b'x'
    then print_hex (value % 2 ^ 32) c.arg_width
    else print_dec (value % 2 ^ 32) c.arg_width c.pad_char

-- `case 's'`, and `case 'c'`, 'x', 'd' and 'u'.
abbrev of_text : List Arg → Option (List ℕ × List Arg)
of_text [] = none
of_text (number n ∷ args) = none
of_text (text s ∷ args) = some (s, args)

abbrev of_number : (ℕ → Option (List ℕ)) → List Arg → Option (List ℕ × List Arg)
of_number print [] = none
of_number print (text s ∷ args) = none
of_number print (number n ∷ args) = elim (print n) [ none ↦ none | some out ↦ some (out, args) ]

-- The switch: what is written, and the arguments that are left.
unfoldable pub convert : Conversion → List Arg → Option (List ℕ × List Arg)
convert c args =
    if c.conversion == b's'
    then of_text args
    else if c.conversion == b'c'
    then of_number (λ n. some (n % 256 ∷ [])) args
    else if (c.conversion == b'x') || ((c.conversion == b'd') || (c.conversion == b'u'))
    then of_number (print_number c) args
    else some (c.conversion ∷ [], args)

abbrev in_front : List ℕ → Option (List ℕ) → Option (List ℕ)
in_front out none = none
in_front out (some more) = some (out ++ more)

-- The loop over the format, for as many rounds as it has characters.
unfoldable pub format_loop : (rounds : ℕ) → List ℕ → List Arg → Option (List ℕ)
unfolding convert read_width
format_loop zero fmt args = some []
format_loop (suc rounds) [] args = some []
format_loop (suc rounds) (c ∷ cs) args = elim (c == b'%') [
  | false ↦ in_front (c ∷ []) (format_loop rounds cs args)
  | true ↦ elim (convert (read_conversion cs) args) [
    | none ↦ none
    | some (out, args') ↦ in_front out (format_loop rounds (read_conversion cs).rest args')
  ]
]

-- What vasprintf writes before the zero byte at the end.
unfoldable pub vasprintf : List ℕ → List Arg → Option (List ℕ)
unfolding format_loop
vasprintf fmt args = format_loop (length fmt) fmt args
