-- ===== src/Strings/RoundTrip.antt =====
-- lib/string.c: atoi reads back what itoa prints.
use bomboclaat_os.Base.{
  ℕ, zero, suc, ◌+◌, ◌-◌, ◌*◌, ◌/◌, ◌%◌, ◌^◌, ◌≤◌, ◌<◌, ◌≡◌, refl, sym, ap, ap₂, ◌∙◌, inl, inr,
  false, ◌&&◌, some, List, [], ◌∷◌, ◌++◌, map, ◌==◌, ltb, if◌then◌else◌, Bool-cases, length,
  length-append, get_or, get_or-append_lt, arith,
}
use native.Mathlib.Decide.{dec_lt}
use bomboclaat_os.Base.Int.{pos}
use bomboclaat_os.Strings.{to_upper_case, atoi}
use bomboclaat_os.Strings.Edit.{
  reverse, mirrored_in, mirrored_out, length-reverse, reverse-mirrored,
}
use bomboclaat_os.Strings.Laws.{decimal, AreDigits, digit_char, atoi_digits}
use bomboclaat_os.Strings.Number.{itoa_char, itoa_digits, itoa_finish, itoa}

-- The decimal digits of a number, lowest first.
abbrev low_digits : ℕ → ℕ → List ℕ
low_digits zero num = []
low_digits (suc fuel) num = if num == 0 then [] else (num % 10) ∷ low_digits fuel (num / 10)

-- The list the other way round.
abbrev backwards : List ℕ → List ℕ → List ℕ
backwards [] done = done
backwards (x ∷ xs) done = backwards xs (x ∷ done)

itoa_digits-decimal :
    (fuel num : ℕ) → itoa_digits fuel false 10 num ≡ map digit_char (low_digits fuel num)
unfolding itoa_digits itoa_char
itoa_digits-decimal zero num = refl
itoa_digits-decimal (suc fuel) num = elim (Bool-cases (num == 0)) [
  | inl e ↦ rw e refl
  | inr ne ↦
      let small : ltb 9 (num % 10) ≡ false = ground arith in
      rw (ne, small) (ap (λ l. digit_char (num % 10) ∷ l) (itoa_digits-decimal fuel (num / 10)))
]

low_digits-AreDigits : (fuel num : ℕ) → AreDigits (low_digits fuel num)
low_digits-AreDigits zero num = tt
low_digits-AreDigits (suc fuel) num = elim (Bool-cases (num == 0)) [
  | inl e ↦ rw e tt
  | inr ne ↦ rw ne (omega arith, low_digits-AreDigits fuel (num / 10))
]

backwards-AreDigits :
    (xs done : List ℕ) → AreDigits xs → AreDigits done → AreDigits (backwards xs done)
backwards-AreDigits [] done t u = u
backwards-AreDigits (x ∷ xs) done t u = backwards-AreDigits xs (x ∷ done) t.1 (t.0, u)

abbrev power_of_ten : ℕ → ℕ
power_of_ten zero = 1
power_of_ten (suc n) = 10 * power_of_ten n

decimal-backwards :
    (fuel num : ℕ) (done : List ℕ)
    → num < power_of_ten fuel
    → decimal (backwards (low_digits fuel num) done) 0 ≡ decimal done num
decimal-backwards zero num done h = ap (decimal done) (omega arith)
decimal-backwards (suc fuel) num done h = elim (Bool-cases (num == 0)) [
  | inl e ↦ let z : 0 ≡ num = ground arith in rw e (ap (decimal done) z)
  | inr ne ↦
      let less : num / 10 < power_of_ten fuel = omega arith in
      let join : num / 10 * 10 + num % 10 ≡ num = omega arith in
      rw ne (decimal-backwards fuel (num / 10) ((num % 10) ∷ done) less ∙ ap (decimal done) join)
]

-- Two byte strings of the same length with the same bytes are the same.
bytes_ext :
    (xs ys : List ℕ)
    → length xs ≡ length ys
    → ((i : ℕ) → i < length xs → get_or xs i 0 ≡ get_or ys i 0)
    → xs ≡ ys
bytes_ext [] [] len same = refl
bytes_ext [] (y ∷ ys) len same = absurd (omega arith)
bytes_ext (x ∷ xs) [] len same = absurd (omega arith)
bytes_ext (x ∷ xs) (y ∷ ys) len same =
    ap₂ (λ h t. h ∷ t) (same 0 (omega arith))
      (bytes_ext xs ys (omega arith) (λ i h. same (suc i) (omega arith)))

length-backwards : (xs done : List ℕ) → length (backwards xs done) ≡ length xs + length done
length-backwards [] done = omega arith
length-backwards (x ∷ xs) done = omega (arith, length-backwards xs (x ∷ done))

abbrev byte : List ℕ → ℕ → ℕ
byte xs i = get_or xs i 0

-- The bytes of the reversed list, and those behind it.
get_or-backwards_out :
    (xs done : List ℕ) (i : ℕ)
    → length xs ≤ i
    → byte (backwards xs done) i ≡ byte done (i - length xs)
get_or-backwards_out [] done i h = ap (byte done) (omega arith)
get_or-backwards_out (x ∷ xs) done i h =
    get_or-backwards_out xs (x ∷ done) i (omega arith)
    ∙ ap (byte (x ∷ done)) (let e : i - length xs ≡ suc (i - suc (length xs)) = omega arith in e)

get_or-backwards_in :
    (xs done : List ℕ) (i : ℕ)
    → i < length xs
    → byte (backwards xs done) i ≡ byte xs (length xs - 1 - i)
get_or-backwards_in [] done i h = absurd (omega arith)
get_or-backwards_in (x ∷ xs) done i h = elim (dec_lt i (length xs)) [
  | yes inside ↦
      get_or-backwards_in xs (x ∷ done) i inside
      ∙ ap (byte (x ∷ xs))
          (let e : suc (length xs - 1 - i) ≡ suc (length xs) - 1 - i = omega arith in e)
  | no last ↦
      get_or-backwards_out xs (x ∷ done) i (omega arith)
      ∙ ap (byte (x ∷ done)) (let e : i - length xs ≡ 0 = omega arith in e)
      ∙ ap (byte (x ∷ xs)) (let e : 0 ≡ suc (length xs) - 1 - i = omega arith in e)
]

byte-behind : (xs : List ℕ) (c i : ℕ) → i ≡ length xs → byte (xs ++ (c ∷ [])) i ≡ c
byte-behind [] c i e = ap (byte (c ∷ [])) e
byte-behind (x ∷ xs) c i e = ap (byte (x ∷ (xs ++ (c ∷ [])))) e ∙ byte-behind xs c (length xs) refl

-- reverse of the bytes before a zero byte.
reverse-text :
    (xs : List ℕ) → 0 < length xs → reverse (xs ++ (0 ∷ [])) (length xs) ≡ backwards xs (0 ∷ [])
reverse-text xs some_bytes =
    let text = xs ++ (0 ∷ []) in
    let n = length xs in
    let whole = length-append xs (0 ∷ []) in
    let len = length-reverse text n in
    let back = length-backwards xs (0 ∷ []) in
    bytes_ext (reverse text n) (backwards xs (0 ∷ [])) (omega arith) (λ i h.
      reverse-mirrored text n i some_bytes (omega arith) ∙ elim (dec_lt i n) [
        | yes inside ↦
            mirrored_in 0 (n - 1) text i (n - 1 - i) (omega arith) (omega arith) (omega arith)
            ∙ get_or-append_lt xs (0 ∷ []) (n - 1 - i) 0 (omega arith)
            ∙ sym (get_or-backwards_in xs (0 ∷ []) i inside)
        | no last ↦
            mirrored_out 0 (n - 1) text i (inr (omega arith))
            ∙ byte-behind xs 0 i (omega arith)
            ∙ ap (byte (0 ∷ [])) (let e : 0 ≡ i - n = omega arith in e)
            ∙ sym (get_or-backwards_out xs (0 ∷ []) i (omega arith))
      ])

map-backwards :
    (ds done z : List ℕ)
    → backwards (map digit_char ds) (map digit_char done ++ z)
      ≡ map digit_char (backwards ds done) ++ z
map-backwards [] done z = refl
map-backwards (d ∷ ds) done z = map-backwards ds (d ∷ done) z

to_upper_case-digits :
    (ds : List ℕ)
    → AreDigits ds
    → to_upper_case (map digit_char ds ++ (0 ∷ [])) ≡ some (map digit_char ds ++ (0 ∷ []))
unfolding to_upper_case
to_upper_case-digits [] t = refl
to_upper_case-digits (d ∷ ds) t =
    let nonzero : (d + b'0' == 0) ≡ false = ground arith in
    let same : (ltb 0x60 (d + b'0') && ltb (d + b'0') 0x7B) ≡ false = ground (arith, t.0) in
    rw (nonzero, to_upper_case-digits ds t.1, same) refl

length-map : (ds : List ℕ) → length (map digit_char ds) ≡ length ds
length-map [] = refl
length-map (d ∷ ds) = ap suc (length-map ds)

itoa_finish-digits :
    (ds : List ℕ)
    → 0 < length ds
    → AreDigits ds
    → itoa_finish (map digit_char ds) ≡ some (map digit_char (backwards ds []) ++ (0 ∷ []))
unfolding itoa_finish
itoa_finish-digits ds some_digits t =
    let len = length-map ds in
    rw (reverse-text (map digit_char ds) (omega arith) ∙ map-backwards ds [] (0 ∷ []))
      (to_upper_case-digits (backwards ds []) (backwards-AreDigits ds [] t tt))

length-low_digits : (fuel num : ℕ) → 0 < num → 0 < length (low_digits (suc fuel) num)
length-low_digits fuel num h = let ne : (num == 0) ≡ false = ground arith in rw ne (omega arith)

-- What atoi makes of digits in their order.
atoi_text :
    (es : List ℕ)
    → 0 < length es
    → AreDigits es
    → decimal es 0 < 2 ^ 31
    → atoi (map digit_char es ++ (0 ∷ [])) ≡ some (pos (decimal es 0))
atoi_text [] h t small = absurd (omega arith)
atoi_text (d ∷ ds) h t small = (atoi_digits d ds [] t small).0

-- For every number below 2^31, itoa in base 10 prints a string, and atoi of it is the number.
pub atoi-itoa :
    (n : ℕ)
    → n < 2 ^ 31
    → (text : List ℕ) × (itoa (pos n) 10 ≡ some text) × (atoi text ≡ some (pos n))
unfolding itoa
atoi-itoa zero h =
    (b'0' ∷ 0 ∷ [], refl, atoi_text (0 ∷ []) (omega arith) (omega arith, tt) (omega arith))
atoi-itoa (suc n) h =
    let ds = low_digits 64 (suc n) in
    let t = low_digits-AreDigits 64 (suc n) in
    let es = backwards ds [] in
    let some_digits : 0 < length ds = length-low_digits 63 (suc n) (omega arith) in
    let value : decimal es 0 ≡ suc n = decimal-backwards 64 (suc n) [] (omega arith) in
    (
      map digit_char es ++ (0 ∷ []),
      ap itoa_finish (itoa_digits-decimal 64 (suc n)) ∙ itoa_finish-digits ds some_digits t,
      atoi_text es (omega (arith, length-backwards ds [])) (backwards-AreDigits ds [] t tt)
            (omega (arith, value))
          ∙ ap (λ (k : ℕ). some (pos k)) value,
    )
