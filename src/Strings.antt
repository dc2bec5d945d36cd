-- ===== src/Strings.antt =====
-- lib/string.c: the functions on strings that end in a zero byte.
-- A string is the list of the bytes from its pointer to the end of the object; an access behind the
-- object is `none`. Source and target are different objects. Signed 32-bit sums wrap.
pub mod Laws
pub mod Edit
pub mod Number
pub mod RoundTrip
pub mod Tests
use bomboclaat_os.Base.{
  ℕ, zero, suc, ◌+◌, ◌-◌, ◌*◌, ◌%◌, ◌^◌, Bool, true, false, not, ◌&&◌, Option, none, some, List, [],
  ◌∷◌, ◌==◌, ltb, leb, if◌then◌else◌, bit_and, bit_or,
}
use bomboclaat_os.Base.Int.{ℤ, pos, negsuc, minus_one, sub_ℕ, signed32}

-- The loop of strlen, with `len` bytes behind it.
unfoldable pub strlen_from : List ℕ → ℕ → Option ℤ
strlen_from [] len = none
strlen_from (c ∷ cs) len =
    let rest = strlen_from cs (len + 1) in if c == 0 then some (pos len) else rest

-- The argument `none` is the null pointer, here and in strcpy.
unfoldable pub strlen : Option (List ℕ) → Option ℤ
unfolding strlen_from
strlen none = some minus_one
strlen (some str) = strlen_from str 0

unfoldable pub strcmp : List ℕ → List ℕ → Option ℤ
strcmp [] _ = none
strcmp (a ∷ a_rest) [] = none
strcmp (a ∷ a_rest) (b ∷ b_rest) =
    let rest = strcmp a_rest b_rest in if not (a == 0) && (a == b) then rest else some (sub_ℕ a b)

-- The loop of strncmp, for n bytes at most.
unfoldable pub strncmp_up_to : ℕ → List ℕ → List ℕ → Option ℤ
strncmp_up_to zero s1 s2 = some (pos 0)
strncmp_up_to (suc n) [] _ = none
strncmp_up_to (suc n) (a ∷ a_rest) [] = none
strncmp_up_to (suc n) (a ∷ a_rest) (b ∷ b_rest) =
    let rest = strncmp_up_to n a_rest b_rest in
    if not (a == 0) && (a == b) then rest else some (sub_ℕ a b)

abbrev pub first_bytes : List ℕ → List ℕ → Option ℤ
first_bytes [] _ = none
first_bytes (a ∷ a_rest) [] = none
first_bytes (a ∷ a_rest) (b ∷ b_rest) = some (sub_ℕ a b)

unfoldable pub strncmp : List ℕ → List ℕ → ℤ → Option ℤ
unfolding strncmp_up_to
strncmp s1 s2 (pos n) = strncmp_up_to n s1 s2
strncmp s1 s2 (negsuc n) = first_bytes s1 s2

abbrev pub after : ℕ → Option (List ℕ) → Option (List ℕ)
after c none = none
after c (some cs) = some (c ∷ cs)

-- The loop of strcpy: the target that it leaves.
unfoldable pub copy_text : List ℕ → List ℕ → Option (List ℕ)
copy_text [] _ = none
copy_text (c ∷ cs) [] = none
copy_text (c ∷ cs) (p ∷ ps) =
    let rest = copy_text cs ps in if c == 0 then some (0 ∷ ps) else after c rest

unfoldable pub strcpy : Option (List ℕ) → Option (List ℕ) → Option (Option (List ℕ))
unfolding copy_text
strcpy none p = some p
strcpy (some s) none = some none
strcpy (some s) (some p) = elim (copy_text s p) [ none ↦ none | some t ↦ some (some t) ]

unfoldable pub to_lower_case : List ℕ → Option (List ℕ)
to_lower_case [] = none
to_lower_case (c ∷ cs) =
    let rest = to_lower_case cs in
    if c == 0
    then some (c ∷ cs)
    else after (if ltb 0x40 c && ltb c 0x5B then bit_or c 0x60 else c) rest

unfoldable pub to_upper_case : List ℕ → Option (List ℕ)
to_upper_case [] = none
to_upper_case (c ∷ cs) =
    let rest = to_upper_case cs in
    if c == 0
    then some (c ∷ cs)
    else after (if ltb 0x60 c && ltb c 0x7B then bit_and c 0xDF else c) rest

-- The loop of atoi; `acum` is its 32 bits.
unfoldable pub atoi_from : List ℕ → ℕ → Option ℕ
atoi_from [] acum = none
atoi_from (c ∷ cs) acum =
    let rest = atoi_from cs ((acum * 10 + (c - 48)) % 2 ^ 32) in
    if leb b'0' c && leb c b'9' then rest else some acum

-- `factor * acum`
abbrev pub times_factor : Bool → Option ℕ → Option ℤ
times_factor negative none = none
times_factor false (some acum) = some (signed32 acum)
times_factor true (some acum) = some (signed32 ((2 ^ 32 - acum) % 2 ^ 32))

unfoldable pub atoi : List ℕ → Option ℤ
unfolding atoi_from
atoi [] = none
atoi (c ∷ cs) =
    if c == b'-'
    then times_factor true (atoi_from cs 0)
    else times_factor false (atoi_from (c ∷ cs) 0)
