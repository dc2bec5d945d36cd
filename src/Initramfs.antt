-- ===== src/Initramfs.antt =====
-- core/initramfs.c: the numbers in the headers of the archive, and the walk over its entries.
-- The archive is the list of the bytes from a pointer on. What kmalloc returns for the file of the
-- entry number `idx`, and for its name in join, is given as two functions of the number.
pub mod Hex
pub mod Archive
pub mod Unpack
mod Tests
use bomboclaat_os.Base.{
  ℕ, zero, suc, ◌+◌, ◌-◌, ◌*◌, ◌/◌, ◌%◌, ◌^◌, Bool, true, false, ◌&&◌, ◌||◌, Option, none, some,
  List, [], ◌∷◌, ◌++◌, ◌==◌, leb, if◌then◌else◌, drop,
}
use bomboclaat_os.Base.Int.{ℤ, pos}
use bomboclaat_os.Strings.{strncmp}
use bomboclaat_os.Paths.{is_zero, same_text}

-- The digit that is put in; none of the three ranges puts 0 in.
unfoldable pub hex_value : ℕ → ℕ
hex_value c =
    if leb b'0' c && leb c b'9'
    then c - b'0'
    else if leb b'a' c && leb c b'f'
    then c - b'a' + 10
    else if leb b'A' c && leb c b'F'
    then c - b'A' + 10
    else 0

-- The loop of parse_hex. The low four bits are zero behind the shift, so that `|=` adds.
unfoldable pub parse_hex_from : (rounds : ℕ) → List ℕ → ℕ → Option ℕ
unfolding hex_value
parse_hex_from zero str result = some result
parse_hex_from (suc rounds) [] result = none
parse_hex_from (suc rounds) (c ∷ cs) result =
    parse_hex_from rounds cs (result * 16 % 2 ^ 32 + hex_value c)

unfoldable pub parse_hex : List ℕ → Option ℕ
unfolding parse_hex_from
parse_hex str = parse_hex_from 8 str 0

-- What kmalloc returned for the entries; 0 is NULL.
pub record Chunks : Type 0 where
  pub file_chunk : ℕ → ℕ
  pub name_chunk : ℕ → ℕ

-- `tmpfs_file_t`, at its address, with the bytes from its content on.
pub record InitFile : Type 0 where
  pub addr : ℕ
  pub dir : ℕ
  pub name : List ℕ
  pub content : List ℕ
  pub size : ℕ

-- The end of the loop, the panic behind it, a read behind the archive, and a write to a null pointer.
pub data Unpacked : Type 0 where
  unpacked : List InitFile → Unpacked
  too_many outside null_store : Unpacked

-- The text before the first zero byte.
unfoldable pub text_of : List ℕ → Option (List ℕ)
text_of [] = none
text_of (c ∷ cs) =
    let rest = text_of cs in
    if c == 0 then some [] else elim rest [ none ↦ none | some t ↦ some (c ∷ t) ]

-- `(x + 3) & ~3` on 32 bits
abbrev pub align4 : ℕ → ℕ
align4 x = (x + 3) % 2 ^ 32 / 4 * 4

abbrev pub cpio_magic : List ℕ
cpio_magic = b'0' ∷ b'7' ∷ b'0' ∷ b'7' ∷ b'0' ∷ b'1' ∷ 0 ∷ []

abbrev pub trailer : List ℕ
trailer = b'T' ∷ b'R' ∷ b'A' ∷ b'I' ∷ b'L' ∷ b'E' ∷ b'R' ∷ b'!' ∷ b'!' ∷ b'!' ∷ []

-- The file of an entry, whose name join puts behind a slash.
abbrev pub file_at : (addr dir data_offset file_size : ℕ) → List ℕ → List ℕ → InitFile
file_at addr dir data_offset file_size name ptr = record {
  addr = addr;
  dir = dir;
  name = b'/' ∷ name;
  content = drop data_offset ptr;
  size = file_size;
}

abbrev pub with_file : InitFile → Unpacked → Unpacked
with_file f (unpacked files) = unpacked (f ∷ files)
with_file f too_many = too_many
with_file f outside = outside
with_file f null_store = null_store

-- The loop from the entry number `idx` on; `left` entries fit in the buffer still. Neither the file's
-- memory nor that of the name is tested for null before it is written.
unfoldable pub get_files : Chunks → (tmpfs_root : ℕ) → (idx left : ℕ) → List ℕ → Unpacked
unfolding parse_hex text_of
get_files chunks tmpfs_root idx zero ptr = too_many
get_files chunks tmpfs_root idx (suc left) ptr = elim (strncmp ptr cpio_magic (pos 6)) [
  | none ↦ outside
  | some order ↦ elim (is_zero (some order)) [
    | false ↦ unpacked []
    | true ↦ elim (parse_hex (drop 54 ptr)) [
      | none ↦ outside
      | some file_size ↦ elim (parse_hex (drop 94 ptr)) [
        | none ↦ outside
        | some name_size ↦ elim (text_of (drop 110 ptr)) [
          | none ↦ outside
          | some name ↦ elim (same_text name trailer) [
            | true ↦ unpacked []
            | false ↦
                let data_offset = align4 (110 + name_size) in
                let addr = chunks.file_chunk idx in
                let rest =
                  get_files chunks tmpfs_root (idx + 1) left
                    (drop ((data_offset + align4 file_size) % 2 ^ 32) ptr) in
                if (addr == 0) || (chunks.name_chunk idx == 0)
                then null_store
                else with_file (file_at addr tmpfs_root data_offset file_size name ptr) rest
          ]
        ]
      ]
    ]
  ]
]

-- initramfs_get_files with a buffer for `max_files`.
unfoldable pub initramfs_get_files : Chunks → (tmpfs_root : ℕ) → List ℕ → (max_files : ℕ) → Unpacked
unfolding get_files
initramfs_get_files chunks tmpfs_root start max_files =
    get_files chunks tmpfs_root 0 max_files start
