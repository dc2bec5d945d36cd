-- ===== src/Vfs.antt =====
-- fs/vfs/vfs.c: descriptor tables and open files.
-- A pointer is a number, 0 the null pointer. `Files` is the store of `vfs_file_t` objects, `none`
-- where nothing is allocated. A descriptor table is the list of its 32 pointers. What `kmalloc`
-- returned is the argument `fresh`. The operations of an inode, called through function pointers,
-- are a record over the state of the file system.
pub mod Table
pub mod Refs
pub mod Inherit
pub mod CloseAll
pub mod Tests
use bomboclaat_os.Base.{
  ℕ, zero, suc, ◌+◌, ◌-◌, ◌%◌, ◌^◌, Bool, true, false, Option, none, some, List, [], ◌∷◌, ◌==◌, ltb,
  leb, if◌then◌else◌, length, get_elem?, get_or, set,
}
use bomboclaat_os.Base.Int.{ℤ, pos, negsuc, minus_one, is_pos, to_int}

abbrev pub max_files_per_task : ℕ
max_files_per_task = 32

-- `vfs_file_t`
pub record File : Type 0 where
  pub inode : ℕ
  pub offset : ℕ
  pub flags : ℕ
  pub ref_count : ℕ

abbrev pub Files : Type 0
Files = ℕ → Option File

abbrev pub Table : Type 0
Table = List ℕ

abbrev pub update : Files → ℕ → Option File → ℕ → Option File
update files p f q = if p == q then f else files q

-- The names of errno.h that this file returns.
pub data Errno : Type 0 where
  esrch enoent emfile eio : Errno

pub data CloseResult : Type 0 where
  closed : CloseResult
  error : Errno → CloseResult

-- `file->ref_count--; if (file->ref_count == 0) kfree(file);`
unfoldable pub drop_ref : ℕ → Files → Files
drop_ref p files = elim (files p) [
  | none ↦ files
  | some f ↦
      let left = (f.ref_count + 2 ^ 32 - 1) % 2 ^ 32 in
      update files p (if left == 0 then none else some (record f { ref_count = left }))
]

-- vfs_close behind its tests on the descriptor.
unfoldable pub close_slot : ℕ → Table → Files → CloseResult × Table × Files
close_slot fd table files =
    let p = get_or table fd 0 in
    if p == 0 then (error enoent, table, files) else (closed, set table fd 0, drop_ref p files)

unfoldable pub vfs_close : ℤ → Option Table → Files → CloseResult × Option Table × Files
unfolding close_slot
vfs_close fd none files = (error esrch, none, files)
vfs_close (negsuc n) (some table) files = (error emfile, some table, files)
vfs_close (pos fd) (some table) files =
    let (r, table', files') = close_slot fd table files in
    if leb max_files_per_task fd
    then (error emfile, some table, files)
    else (r, some table', files')

-- The first null pointer of a table, from index `i` on.
unfoldable pub free_slot : ℕ → Table → Option ℕ
free_slot i [] = none
free_slot i (p ∷ ps) = if p == 0 then some i else free_slot (i + 1) ps

pub data OpenResult : Type 0 where
  opened : ℕ → ℕ → OpenResult
  failed : ℤ → OpenResult
  open_error : Errno → OpenResult

-- `found` is the inode and the size of what vfs_find returned; `opened fd size` also writes `size`
-- to `*size_buf`.
unfoldable pub vfs_open :
    Option (ℕ × ℕ) → ℕ → (fresh : ℕ) → Option Table → Files → OpenResult × Option Table × Files
unfolding free_slot
vfs_open found flags fresh none files = (open_error esrch, none, files)
vfs_open found flags fresh (some table) files = elim (free_slot 0 table) [
  | none ↦ (failed minus_one, some table, files)
  | some fd ↦ elim found [
    | none ↦ (open_error enoent, some table, files)
    | some (inode, size) ↦ if fresh == 0 then (failed minus_one, some table, files) else (
      opened fd size,
      some (set table fd fresh),
      update files fresh
          (some (record { inode = inode; offset = 0; flags = flags; ref_count = 1 })),
    )
  ]
]

-- vfs_delete, where `del_stat` is what `ops->delete` returned: the file object is freed, and the
-- descriptor is not cleared. `none` is an access outside the table, which is not tested for.
unfoldable pub vfs_delete : (del_stat : ℤ) → ℕ → Option Table → Files → Option (ℤ × Files)
vfs_delete del_stat fd none files = some (minus_one, files)
vfs_delete del_stat fd (some table) files = elim (get_elem? table fd) [
  | none ↦ none
  | some p ↦ if p == 0 then some (minus_one, files) else elim del_stat [
    | pos zero ↦ some (pos 0, update files p none)
    | other ↦ some (other, files)
  ]
]

-- The loop of task_inherit_fds (core/tasks/tasks.c) over the parent's table: the child, whose
-- table is empty, shares each open file.
unfoldable pub add_ref : ℕ → Files → Files
add_ref p files = elim (files p) [
  | none ↦ files
  | some f ↦ update files p (some (record f { ref_count = (f.ref_count + 1) % 2 ^ 32 }))
]

unfoldable pub inherit_fds : Table → Files → Files
inherit_fds [] files = files
inherit_fds (p ∷ ps) files = inherit_fds ps (if p == 0 then files else add_ref p files)

-- The loop of task_terminate and task_release: every descriptor that is open is closed, from `i`.
unfoldable pub close_from : ℕ → ℕ → Table → Files → Table × Files
close_from zero i table files = (table, files)
close_from (suc n) i table files =
    let (_, table', files') = close_slot i table files in close_from n (i + 1) table' files'

-- `ops->read` and `ops->write` of one inode: the bytes asked for or given, and the offset.
pub record InodeOps (S : Type 0) : Type 0 where
  pub read : Option (ℕ → ℕ → ℕ → S → ℤ × List ℕ × S)
  pub write : Option (ℕ → List ℕ → ℕ → S → ℤ × S)

-- `if (n > 0) file->offset += n;`
unfoldable pub advance : ℕ → File → ℤ → Files → Files
advance p f (pos n) files =
    if ltb 0 n then update files p (some (record f { offset = (f.offset + n) % 2 ^ 64 })) else files
advance p f (negsuc n) files = files

-- The file that a descriptor stands for; `none` where vfs_read and vfs_write return -1 early.
unfoldable pub file_of : ℤ → Option Table → Files → Option (ℕ × File)
file_of fd none files = none
file_of (negsuc n) (some table) files = none
file_of (pos fd) (some table) files =
    let p = get_or table fd 0 in
    if leb max_files_per_task fd
    then none
    else if p == 0
    then none
    else elim (files p) [ none ↦ none | some f ↦ some (p, f) ]

module _ {S : Type 0} (ops : InodeOps S) where
  unfoldable pub vfs_read : ℤ → Option Table → ℕ → Files → S → ℤ × List ℕ × Files × S
  unfolding file_of advance
  vfs_read fd table size files s = elim (file_of fd table files) [
    | none ↦ (minus_one, [], files, s)
    | some (p, f) ↦ elim ops.read [
      | none ↦ (minus_one, [], files, s)
      | some read ↦
          let (n, bytes, s') = read f.inode size f.offset s in
          (to_int n, bytes, advance p f (to_int n) files, s')
    ]
  ]

  unfoldable pub vfs_write : ℤ → Option Table → List ℕ → Files → S → ℤ × Files × S
  unfolding file_of advance
  vfs_write fd table bytes files s = elim (file_of fd table files) [
    | none ↦ (minus_one, files, s)
    | some (p, f) ↦ elim ops.write [
      | none ↦ (minus_one, files, s)
      | some write ↦
          let (n, s') = write f.inode bytes f.offset s in
          (to_int n, advance p f (to_int n) files, s')
    ]
  ]
