-- ===== src/Kprintf/Format.antt =====
-- core/kprintf.c: the loop over the format, and atoi of what it writes for a number.
use bomboclaat_os.Base.{
  ℕ, ◌-◌, ◌%◌, ◌^◌, ◌<◌, ◌≡◌, ◌≢◌, refl, sym, ap, ◌∙◌, subst, Option, none, some, List, [], ◌∷◌,
  ◌++◌, map, length, replicate, append_assoc, append-nil, arith, ==_false,
}
use bomboclaat_os.Base.Int.{pos}
use bomboclaat_os.Strings.{atoi}
use bomboclaat_os.Strings.Laws.{decimal, AreDigits, digit_char, atoi_digits}
use bomboclaat_os.Kprintf.{
  Arg, number, read_width, of_number, convert, in_front, format_loop, vasprintf,
}
use bomboclaat_os.Kprintf.Digits.{print_dec}
use bomboclaat_os.Kprintf.Printed.{PrintedDec, print_dec-PrintedDec}

-- No character of the text is a percent sign.
abbrev pub IsPlain : List ℕ → Type 0
IsPlain [] = Unit {0}
IsPlain (c ∷ cs) = (c ≢ b'%') × IsPlain cs

in_front_twice :
    (xs ys : List ℕ) (o : Option (List ℕ)) → in_front xs (in_front ys o) ≡ in_front (xs ++ ys) o
in_front_twice xs ys none = refl
in_front_twice xs ys (some out) = ap some (sym (append_assoc xs ys out))

-- Text without percent signs is written as it stands, in front of what the rest of the format gives.
pub vasprintf-append :
    (plain fmt : List ℕ) (args : List Arg)
    → IsPlain plain
    → vasprintf (plain ++ fmt) args ≡ in_front plain (vasprintf fmt args)
unfolding vasprintf format_loop
vasprintf-append [] fmt args t = no_front (vasprintf fmt args)
  where
    no_front : (o : Option (List ℕ)) → o ≡ in_front [] o
    no_front none = refl
    no_front (some out) = refl
vasprintf-append (c ∷ cs) fmt args t =
    let ordinary = ==_false c b'%' t.0 in
    rw (ordinary, format_loop)
      (ap (in_front (c ∷ [])) (vasprintf-append cs fmt args t.1)
        ∙ in_front_twice (c ∷ []) cs (vasprintf fmt args))

-- What is read back.
abbrev pub ReadsBack : ℕ → List ℕ → Option (List ℕ) → Type 0
ReadsBack n behind = elim [ none ↦ ⊥ | some out ↦ atoi (out ++ (0 ∷ behind)) ≡ some (pos n) ]

digits-ReadsBack :
    (n : ℕ) (behind ds : List ℕ)
    → n < 2 ^ 31
    → AreDigits ds
    → 0 < length ds
    → decimal ds 0 ≡ n
    → atoi (map digit_char ds ++ (0 ∷ behind)) ≡ some (pos n)
digits-ReadsBack n behind [] small t long e = absurd (omega arith)
digits-ReadsBack n behind (d ∷ ds) small t long e =
    (atoi_digits d ds behind t (subst (λ m. m < 2 ^ 31) (sym e) small)).0 ∙ ap (λ m. some (pos m)) e

printed-ReadsBack :
    (n : ℕ) (behind : List ℕ) (o : Option (List ℕ))
    → n < 2 ^ 31
    → PrintedDec n 0 b' ' o
    → ReadsBack n behind o
printed-ReadsBack n behind none small u = u
printed-ReadsBack n behind (some out) small u =
    let no_pad : 0 - length u.digits ≡ 0 = omega arith in
    let written : out ≡ map digit_char u.digits =
      u.written ∙ ap (λ k. replicate k b' ' ++ map digit_char u.digits) no_pad in
    rw written (digits-ReadsBack n behind u.digits small u.are_digits u.some_digits u.is_value)

-- "%u"
abbrev pub percent_u : List ℕ
percent_u = b'%' ∷ b'u' ∷ []

-- vasprintf of the format %u writes for each number below 2^31 a string of which atoi gives the number
-- back, whatever stands behind its zero byte.
pub atoi-vasprintf :
    (n : ℕ) (behind : List ℕ)
    → n < 2 ^ 31
    → ReadsBack n behind (vasprintf percent_u (number n ∷ []))
unfolding vasprintf format_loop convert read_width
atoi-vasprintf n behind small =
    let word : n % 2 ^ 32 ≡ n = omega arith in
    through (print_dec (n % 2 ^ 32) 0 b' ') (
      subst (λ v. ReadsBack n behind (print_dec v 0 b' ')) (sym word)
        (printed-ReadsBack n behind (print_dec n 0 b' ') small
          (print_dec-PrintedDec n 0 b' ' (omega arith))))
  where
    through :
        (o : Option (List ℕ))
        → ReadsBack n behind o
        → ReadsBack n behind (elim (of_number (λ m. o) (number n ∷ [])) [
          | none ↦ none
          | some (out, args') ↦ in_front out (some [])
        ])
    through none r = r
    through (some out) r = rw (append-nil out) r
