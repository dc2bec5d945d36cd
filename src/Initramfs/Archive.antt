-- ===== src/Initramfs/Archive.antt =====
-- core/initramfs.c: initramfs_get_files on an archive of the format that it reads.
use bomboclaat_os.Base.{
  ℕ, zero, suc, ◌+◌, ◌%◌, ◌^◌, ◌<◌, ◌≡◌, refl, ap, ◌∙◌, some, List, [], ◌∷◌, ◌++◌, length, drop,
  take, ==_false, arith,
}
use bomboclaat_os.Base.Int.{pos}
use bomboclaat_os.Strings.{strncmp, strncmp_up_to}
use bomboclaat_os.Strings.Laws.{IsText}
use bomboclaat_os.Kprintf.{hex_digits}
use bomboclaat_os.Initramfs.{parse_hex, text_of, align4, cpio_magic}
use bomboclaat_os.Initramfs.Hex.{parse_hex-hex_digits}

-- An entry: its name and content, the fields before the size, between the sizes and behind them, and
-- the bytes that pad the name and the content.
pub record Packed : Type 0 where
  pub name : List ℕ
  pub content : List ℕ
  pub before : List ℕ
  pub between : List ℕ
  pub behind : List ℕ
  pub name_pad : List ℕ
  pub content_pad : List ℕ

abbrev magic_bytes : List ℕ
magic_bytes = b'0' ∷ b'7' ∷ b'0' ∷ b'7' ∷ b'0' ∷ b'1' ∷ []

abbrev pub name_size : Packed → ℕ
name_size f = suc (length f.name)

-- The bytes of the entry behind the sizes, and `rest`.
abbrev body : Packed → List ℕ → List ℕ
body f rest = f.name ++ (0 ∷ (f.name_pad ++ (f.content ++ (f.content_pad ++ rest))))

-- The bytes of the entry from each field on, and `rest`.
abbrev from_behind : Packed → List ℕ → List ℕ
from_behind f rest = f.behind ++ body f rest

abbrev from_name_size : Packed → List ℕ → List ℕ
from_name_size f rest = hex_digits 8 (name_size f) ++ from_behind f rest

abbrev from_between : Packed → List ℕ → List ℕ
from_between f rest = f.between ++ from_name_size f rest

abbrev from_size : Packed → List ℕ → List ℕ
from_size f rest = hex_digits 8 (length f.content) ++ from_between f rest

abbrev from_fields : Packed → List ℕ → List ℕ
from_fields f rest = f.before ++ from_size f rest

-- The bytes of the entry, and `rest`.
abbrev pub pack : Packed → List ℕ → List ℕ
pack f rest = magic_bytes ++ from_fields f rest

pub record IsPacked (f : Packed) : Type 0 where
  pub is_text : IsText f.name
  pub before_fields : length f.before ≡ 48
  pub between_fields : length f.between ≡ 32
  pub behind_fields : length f.behind ≡ 8
  pub name_padded : 110 + name_size f + length f.name_pad ≡ align4 (110 + name_size f)
  pub content_padded : length f.content + length f.content_pad ≡ align4 (length f.content)
  pub fits : 110 + name_size f + 8 + length f.content < 2 ^ 32

length-hex_digits : (n value : ℕ) → length (hex_digits n value) ≡ n
unfolding hex_digits
length-hex_digits zero value = refl
length-hex_digits (suc n) value = ap suc (length-hex_digits n value)

drop_past : (xs ys : List ℕ) (n m : ℕ) → n ≡ length xs + m → drop n (xs ++ ys) ≡ drop m ys
drop_past [] ys n m e = let same : n ≡ m = omega arith in ap (λ k. drop k ys) same
drop_past (x ∷ xs) ys n m e =
    let one_more : n ≡ suc (length xs + m) = omega arith in
    ap (λ k. drop k (x ∷ (xs ++ ys))) one_more ∙ drop_past xs ys (length xs + m) m refl

pub take_all : (xs ys : List ℕ) → take (length xs) (xs ++ ys) ≡ xs
take_all [] ys = refl
take_all (x ∷ xs) ys = ap (λ l. x ∷ l) (take_all xs ys)

pub text_of-append :
    (name behind : List ℕ) → IsText name → text_of (name ++ (0 ∷ behind)) ≡ some name
unfolding text_of
text_of-append [] behind t = refl
text_of-append (c ∷ cs) behind t =
    let ordinary = ==_false c 0 t.0 in
    let rest = text_of-append cs behind t.1 in rw (ordinary, text_of) (rw rest refl)

pub magic-pack :
    (f : Packed) (rest : List ℕ) → strncmp (pack f rest) cpio_magic (pos 6) ≡ some (pos 0)
unfolding strncmp strncmp_up_to
magic-pack f rest = refl

pub drop-size :
    (f : Packed) (rest : List ℕ)
    → IsPacked f
    → parse_hex (drop 54 (pack f rest)) ≡ some (length f.content)
drop-size f rest p =
    let fields = p.before_fields in
    let small = p.fits in
    ap parse_hex (
      drop_past magic_bytes (from_fields f rest) 54 48 refl
      ∙ drop_past f.before (from_size f rest) 48 0 (omega arith))
    ∙ parse_hex-hex_digits (length f.content) (from_between f rest) (omega arith)

pub drop-name_size :
    (f : Packed) (rest : List ℕ)
    → IsPacked f
    → parse_hex (drop 94 (pack f rest)) ≡ some (name_size f)
drop-name_size f rest p =
    let fields = p.before_fields in
    let between = p.between_fields in
    let digits = length-hex_digits 8 (length f.content) in
    let small = p.fits in
    ap parse_hex (
      drop_past magic_bytes (from_fields f rest) 94 88 refl
      ∙ drop_past f.before (from_size f rest) 88 40 (omega arith)
      ∙ drop_past (hex_digits 8 (length f.content)) (from_between f rest) 40 32 (omega arith)
      ∙ drop_past f.between (from_name_size f rest) 32 0 (omega arith))
    ∙ parse_hex-hex_digits (name_size f) (from_behind f rest) (omega arith)

-- The bytes behind the header.
pub drop-header :
    (f : Packed) (rest : List ℕ) (n : ℕ)
    → IsPacked f
    → drop (110 + n) (pack f rest) ≡ drop n (body f rest)
drop-header f rest n p =
    let fields = p.before_fields in
    let between = p.between_fields in
    let behind = p.behind_fields in
    let digits = length-hex_digits 8 (length f.content) in
    let name_digits = length-hex_digits 8 (name_size f) in
    drop_past magic_bytes (from_fields f rest) (110 + n) (104 + n) (omega arith)
    ∙ drop_past f.before (from_size f rest) (104 + n) (56 + n) (omega arith)
    ∙ drop_past (hex_digits 8 (length f.content)) (from_between f rest) (56 + n) (48 + n)
        (omega arith)
    ∙ drop_past f.between (from_name_size f rest) (48 + n) (16 + n) (omega arith)
    ∙ drop_past (hex_digits 8 (name_size f)) (from_behind f rest) (16 + n) (8 + n) (omega arith)
    ∙ drop_past f.behind (body f rest) (8 + n) n (omega arith)

-- The bytes behind the name and its padding.
drop-padded :
    (f : Packed) (rest : List ℕ) (m : ℕ)
    → IsPacked f
    → drop (align4 (110 + name_size f) + m) (pack f rest)
      ≡ drop m (f.content ++ (f.content_pad ++ rest))
drop-padded f rest m p =
    let padded = p.name_padded in
    let pad = length f.name_pad in
    let at : align4 (110 + name_size f) + m ≡ 110 + (length f.name + suc (pad + m)) = omega arith in
    ap (λ n. drop n (pack f rest)) at
    ∙ drop-header f rest (length f.name + suc (pad + m)) p
    ∙ drop_past f.name (0 ∷ (f.name_pad ++ (f.content ++ (f.content_pad ++ rest))))
        (length f.name + suc (pad + m)) (suc (pad + m)) refl
    ∙ drop_past f.name_pad (f.content ++ (f.content_pad ++ rest)) (pad + m) m refl

pub drop-content :
    (f : Packed) (rest : List ℕ)
    → IsPacked f
    → drop (align4 (110 + name_size f)) (pack f rest) ≡ f.content ++ (f.content_pad ++ rest)
drop-content f rest p =
    let same : align4 (110 + name_size f) ≡ align4 (110 + name_size f) + 0 = omega arith in
    ap (λ n. drop n (pack f rest)) same ∙ drop-padded f rest 0 p

-- The bytes behind the entry.
pub drop-next :
    (f : Packed) (rest : List ℕ)
    → IsPacked f
    → drop ((align4 (110 + name_size f) + align4 (length f.content)) % 2 ^ 32) (pack f rest) ≡ rest
drop-next f rest p =
    let padded = p.content_padded in
    let small = p.fits in
    let name_padded = p.name_padded in
    let size = length f.content in
    let pad = length f.content_pad in
    let at : (align4 (110 + name_size f) + align4 size) % 2 ^ 32
        ≡ align4 (110 + name_size f) + (size + pad) =
      omega arith in
    ap (λ n. drop n (pack f rest)) at
    ∙ drop-padded f rest (size + pad) p
    ∙ drop_past f.content (f.content_pad ++ rest) (size + pad) pad refl
    ∙ drop_past f.content_pad rest pad 0 (omega arith)
