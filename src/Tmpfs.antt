-- ===== src/Tmpfs.antt =====
-- fs/tmpfs/tmpfs.c: reading, writing and deleting files in memory.
-- `content` is the block that `file->content` points at, `none` the null pointer; an access outside
-- the block is a fault, `none`. Allocation is taken to succeed.
pub mod RoundTrip
pub mod Faults
pub mod Tests
use bomboclaat_os.Base.{
  ℕ, zero, suc, ◌+◌, ◌-◌, ◌%◌, ◌^◌, min, Bool, true, false, ◌||◌, Option, none, some, List, [], ◌∷◌,
  ◌++◌, ◌==◌, ltb, leb, if◌then◌else◌, length, take, drop, replicate,
}
use bomboclaat_os.Base.Int.{ℤ, pos, minus_one}

-- `tmpfs_file_t`, without its name and links
pub record TmpFile : Type 0 where
  pub content : Option (List ℕ)
  pub size : ℕ

-- memcpy of the bytes `buf` to `block + offset`; its length argument has 32 bits.
unfoldable pub blit : List ℕ → ℕ → List ℕ → Option (List ℕ)
blit block offset buf =
    let n = length buf % 2 ^ 32 in
    if ltb (length block) (offset + n)
    then none
    else some (take offset block ++ (take n buf ++ drop (offset + n) block))

-- memcpy of `n` bytes from `block + offset`; its length argument has 32 bits.
abbrev pub copy_out : List ℕ → ℕ → ℕ → Option (List ℕ)
copy_out block offset n =
    let len = n % 2 ^ 32 in
    if ltb (length block) (offset + len) then none else some (take len (drop offset block))

-- realloc of core/memory/kmalloc.c: a zeroed block of `size` bytes takes all bytes of the old one.
unfoldable pub realloc : List ℕ → ℕ → Option (List ℕ)
realloc old size = blit (replicate size 0) 0 old

-- The value that is returned, and the bytes put in the buffer.
unfoldable pub tmpfs_read : TmpFile → ℕ → ℕ → Option (ℤ × List ℕ)
tmpfs_read file size offset = elim file.content [
  | none ↦ some (minus_one, [])
  | some block ↦
      let available = file.size - offset in
      let to_read = if ltb size available then size else available in
      if leb file.size offset then some (pos 0, []) else elim (copy_out block offset to_read) [
        | none ↦ none
        | some bytes ↦ some (pos to_read, bytes)
      ]
]

unfoldable pub grow : List ℕ → (file_size size offset : ℕ) → Option (List ℕ)
unfolding realloc
grow block file_size size offset =
    if ltb file_size offset || ltb file_size size
    then realloc block ((offset + size) % 2 ^ 64)
    else some block

-- The size that the inode keeps beside that of the file is left out.
unfoldable pub tmpfs_write : TmpFile → List ℕ → ℕ → Option (ℤ × TmpFile)
unfolding grow
tmpfs_write file buffer offset = elim file.content [
  | none ↦ some (minus_one, file)
  | some block ↦ elim (grow block file.size (length buffer) offset) [
    | none ↦ none
    | some block' ↦ elim (blit block' offset buffer) [
      | none ↦ none
      | some block'' ↦ some (
        pos (length buffer),
        record { content = some block''; size = (offset + length buffer) % 2 ^ 64 },
      )
    ]
  ]
]

-- tmpfs_mkfile: one zero byte is allocated, and the file is empty.
abbrev pub new_file : TmpFile
new_file = record { content = some (0 ∷ []); size = 0 }

-- `vfs_inode_t`, as far as tmpfs_delete reads and writes it.
pub record Inode : Type 0 where
  pub mode : ℕ
  pub private_data : ℕ

-- What is passed to kfree, and as which kind of object.
pub data Deleted : Type 0 where
  null_object : Deleted
  dir_freed : ℕ → Deleted
  file_freed : ℕ → Deleted

abbrev pub mode_dir : ℕ
mode_dir = 0

abbrev pub mode_file : ℕ
mode_file = 1

unfoldable pub tmpfs_deldir : ℕ → ℤ × Deleted
tmpfs_deldir p = if p == 0 then (minus_one, null_object) else (pos 0, dir_freed p)

unfoldable pub tmpfs_delfile : ℕ → ℤ × Deleted
tmpfs_delfile p = if p == 0 then (minus_one, null_object) else (pos 0, file_freed p)

-- The two tests are assignments, `inode->mode = VFS_MODE_DIR` and `inode->mode = VFS_MODE_FILE`,
-- whose values are 0 and 1. `none` is the end of the function without a return value.
unfoldable pub tmpfs_delete : Option Inode → Option (ℤ × Deleted × Option Inode)
unfolding tmpfs_deldir tmpfs_delfile
tmpfs_delete none = some (minus_one, null_object, none)
tmpfs_delete (some inode) =
    let as_dir = record inode { mode = mode_dir } in
    let as_file = record as_dir { mode = mode_file } in
    if as_dir.mode == 0
    then if as_file.mode == 0
      then none
      else (let (r, d) = tmpfs_delfile as_file.private_data in some (r, d, some as_file))
    else let (r, d) = tmpfs_deldir as_dir.private_data in some (r, d, some as_dir)
