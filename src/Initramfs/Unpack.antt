-- ===== src/Initramfs/Unpack.antt =====
-- core/initramfs.c: initramfs_get_files gives the files of an archive back.
use bomboclaat_os.Base.{ℕ, zero, suc, ◌+◌, ◌≡◌, ◌≢◌, List, [], ◌∷◌, length, take, arith}
use bomboclaat_os.Strings.Laws.{IsText}
use bomboclaat_os.Initramfs.{
  Chunks, InitFile, Unpacked, unpacked, too_many, outside, null_store, align4, trailer, file_at,
}
use bomboclaat_os.Initramfs.Archive.{Packed, IsPacked, name_size, pack}

-- kmalloc has memory for the `count` entries from the number `idx` on, and for their names.
abbrev pub HasRoom : Chunks → (idx count : ℕ) → Type 0
HasRoom chunks idx zero = Unit
HasRoom chunks idx (suc count) =
    ((chunks.file_chunk idx ≢ 0) × (chunks.name_chunk idx ≢ 0)) × HasRoom chunks (idx + 1) count

-- The files are those of the archive from the entry number `idx` on, each at its memory, in the root
-- directory, and with its content at the beginning of the bytes at its pointer.
abbrev pub AreFiles : Chunks → (tmpfs_root idx : ℕ) → List Packed → List InitFile → Type 0
AreFiles chunks root idx [] [] = Unit
AreFiles chunks root idx [] (g ∷ gs) = ⊥
AreFiles chunks root idx (f ∷ fs) [] = ⊥
AreFiles chunks root idx (f ∷ fs) (g ∷ gs) =
    ((g.addr ≡ chunks.file_chunk idx)
      × (g.dir ≡ root)
      × (g.name ≡ b'/' ∷ f.name)
      × (g.size ≡ length f.content)
      × (take g.size g.content ≡ f.content))
    × AreFiles chunks root (idx + 1) fs gs

abbrev pub UnpackedAs : Chunks → (tmpfs_root idx : ℕ) → List Packed → Unpacked → Type 0
UnpackedAs chunks root idx fs (unpacked gs) = AreFiles chunks root idx fs gs
UnpackedAs chunks root idx fs too_many = ⊥
UnpackedAs chunks root idx fs outside = ⊥
UnpackedAs chunks root idx fs null_store = ⊥

-- The entries, one behind the other, and `rest`.
abbrev pub archive : List Packed → List ℕ → List ℕ
archive [] rest = rest
archive (f ∷ fs) rest = pack f (archive fs rest)

-- Each entry is in the format and is not the end.
abbrev pub AreEntries : List Packed → Type 0
AreEntries [] = Unit
AreEntries (f ∷ fs) = IsPacked f × (f.name ≢ trailer) × AreEntries fs

pub trailer-IsText : IsText trailer
trailer-IsText = (
  omega arith,
  (
    omega arith,
    (
      omega arith,
      (
        omega arith,
        (
          omega arith,
          (omega arith, (omega arith, (omega arith, (omega arith, (omega arith, tt))))),
        ),
      ),
    ),
  ),
)

-- The file that the entry number `idx` becomes.
abbrev entry_file : Chunks → (root idx : ℕ) → Packed → List ℕ → InitFile
entry_file chunks root idx f rest =
    file_at (chunks.file_chunk idx) root (align4 (110 + name_size f)) (length f.content) f.name
      (pack f rest)
