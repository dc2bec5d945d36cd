-- ===== src/Kprintf/Tests.antt =====
-- core/kprintf.c: a format, and numbers above and below 1410065407.
use bomboclaat_os.Base.{ℕ, ◌≡◌, refl, some, List, [], ◌∷◌, arith}
use bomboclaat_os.Kprintf.{
  number, text, count_digits, dec_digits, hex_digits, print_dec, print_hex, read_width, convert,
  format_loop, vasprintf,
}
use bomboclaat_os.Kprintf.Printed.{PrintedDec, print_dec-PrintedDec}
use bomboclaat_os.Kprintf.Format.{ReadsBack, percent_u, atoi-vasprintf}

-- "%04d:%s"
abbrev format : List ℕ
format = b'%' ∷ b'0' ∷ b'4' ∷ b'd' ∷ b':' ∷ b'%' ∷ b's' ∷ []

run_format :
    vasprintf format (number 42 ∷ text (b'o' ∷ b'k' ∷ []) ∷ [])
    ≡ some (b'0' ∷ b'0' ∷ b'4' ∷ b'2' ∷ b':' ∷ b'o' ∷ b'k' ∷ [])
unfolding vasprintf format_loop convert read_width print_dec count_digits dec_digits
run_format = refl

-- Two zeros in front that nothing asked for.
two_billion :
    print_dec 2000000000 0 b' '
    ≡ some (b'0' ∷ b'0' ∷ b'2' ∷ b'0' ∷ b'0' ∷ b'0' ∷ b'0' ∷ b'0' ∷ b'0' ∷ b'0' ∷ b'0' ∷ b'0' ∷ [])
unfolding print_dec count_digits dec_digits
two_billion = refl

hex_beef : print_hex 0xBEEF 6 ≡ some (b'0' ∷ b'0' ∷ b'B' ∷ b'E' ∷ b'E' ∷ b'F' ∷ [])
unfolding print_hex count_digits hex_digits
hex_beef = refl

print_dec-PrintedDec_example : PrintedDec 4294967295 12 b' ' (print_dec 4294967295 12 b' ')
print_dec-PrintedDec_example = print_dec-PrintedDec 4294967295 12 b' ' (omega arith)

atoi-vasprintf_example : ReadsBack 1997 [] (vasprintf percent_u (number 1997 ∷ []))
atoi-vasprintf_example = atoi-vasprintf 1997 [] (omega arith)
