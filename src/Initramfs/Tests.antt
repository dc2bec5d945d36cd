-- ===== src/Initramfs/Tests.antt =====
-- core/initramfs.c: numbers of headers.
use bomboclaat_os.Base.{◌+◌, ◌*◌, ◌≡◌, refl, inr, some, [], ◌∷◌, replicate, arith}
use bomboclaat_os.Kprintf.{print_hex}
use bomboclaat_os.Initramfs.{hex_value, parse_hex_from, parse_hex}
use bomboclaat_os.Initramfs.{Chunks, trailer}
use bomboclaat_os.Initramfs.Archive.{Packed}
use bomboclaat_os.Initramfs.Hex.{ParsesBack, parse_hex-print_hex}

lower_case : parse_hex (b'0' ∷ b'0' ∷ b'0' ∷ b'0' ∷ b'b' ∷ b'e' ∷ b'E' ∷ b'F' ∷ []) ≡ some 0xBEEF
unfolding parse_hex parse_hex_from hex_value
lower_case = refl

parse_hex-print_hex_example : ParsesBack 0xBEEF (print_hex 0xBEEF 8)
parse_hex-print_hex_example = parse_hex-print_hex 0xBEEF 8 (omega arith) (inr refl)

-- The file "a" with the content "hi", and the end.
abbrev small_file : Packed
small_file = record {
  name = b'a' ∷ [];
  content = b'h' ∷ b'i' ∷ [];
  before = replicate 48 b'0';
  between = replicate 32 b'0';
  behind = replicate 8 b'0';
  name_pad = [];
  content_pad = 0 ∷ 0 ∷ [];
}

abbrev end_entry : Packed
end_entry = record {
  name = trailer;
  content = [];
  before = replicate 48 b'0';
  between = replicate 32 b'0';
  behind = replicate 8 b'0';
  name_pad = 0 ∷ 0 ∷ 0 ∷ [];
  content_pad = [];
}

-- The file is at 0x9000, and its name at 0xA000.
abbrev chunks : Chunks
chunks = record { file_chunk = λ idx. 0x9000 + 64 * idx; name_chunk = λ idx. 0xA000 + 64 * idx }
