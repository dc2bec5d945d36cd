-- ===== src/Paths/Tree.antt =====
-- fs/tmpfs/tmpfs.c and fs/devfs/devfs.c: looking for a name, new directories and files, devices.
-- The arguments p_... are the pointers that kmalloc returns, 0 where it fails.
use bomboclaat_os.Base.{
  ℕ, ◌+◌, ◌%◌, ◌^◌, ◌||◌, Option, none, some, List, [], ◌∷◌, ◌++◌, ◌==◌, leb, if◌then◌else◌, length,
}
use bomboclaat_os.Base.Int.{ℤ, pos, minus_one}
use bomboclaat_os.Tmpfs.{mode_dir, mode_file, new_file}
use bomboclaat_os.Paths.Names.{Texts, find_named}
use bomboclaat_os.Paths.Space.{
  tmpfs_inode_ops, device_ops, DevfsEntry, Space, put, mode_dev, vfs_new_id,
}

unfoldable pub tmpfs_find_file : Texts → Space → (parent : ℕ) → List ℕ → Option ℕ
unfolding find_named
tmpfs_find_file texts s parent name =
    find_named texts (λ p. (s.files p).name) name (s.dirs parent).files

unfoldable pub tmpfs_find_subdir : Texts → Space → (parent : ℕ) → List ℕ → Option ℕ
unfolding find_named
tmpfs_find_subdir texts s parent name =
    find_named texts (λ p. (s.dirs p).name) name (s.dirs parent).subdirs

-- The result of a lookup: `fault` is a store through a null pointer.
pub data Lookup : Type 0 where
  not_found fault : Lookup
  found : (inode : ℕ) → Space → Lookup

-- The inode for a file that is found. Its kmalloc is not tested.
abbrev pub file_inode : (p_inode file : ℕ) → Space → Lookup
file_inode p_inode file s =
    if p_inode == 0
    then fault
    else found p_inode (record (vfs_new_id s) {
      inodes =
          put p_inode
            (record {
              id = s.next_id;
              size = (s.files file).data_of.size;
              mode = 0;
              ops = tmpfs_inode_ops;
              private_data = file;
            })
            s.inodes;
    })

unfoldable pub tmpfs_lookup : Texts → (parent : ℕ) → List ℕ → (p_inode : ℕ) → Space → Lookup
unfolding tmpfs_find_file
tmpfs_lookup texts parent name p_inode s =
    elim (tmpfs_find_file texts s (s.inodes parent).private_data name) [
      | none ↦ not_found
      | some file ↦ file_inode p_inode file s
    ]

-- A new inode or entry: null, a panic, or the pointer.
pub data Made : Type 0 where
  null : Space → Made
  panic : Made
  made : (inode : ℕ) → Space → Made

unfoldable pub tmpfs_mkdir : (parent name p_dir p_inode : ℕ) → Space → Made
tmpfs_mkdir parent name p_dir p_inode s =
    let dir = (s.inodes parent).private_data in
    let linked =
      put dir (record (s.dirs dir) { subdirs = (s.dirs dir).subdirs ++ (p_dir ∷ []) })
        (put p_dir
          (record { name = name; parent_dir = dir; subdirs = []; files = []; nfiles = 0; size = 0 })
          s.dirs) in
    if (dir == 0) || ((p_dir == 0) || (p_inode == 0))
    then panic
    else made p_inode (record (vfs_new_id s) {
      dirs = linked;
      inodes =
          put p_inode
            (record {
              id = s.next_id;
              size = 0;
              mode = mode_dir;
              ops = tmpfs_inode_ops;
              private_data = p_dir;
            })
            s.inodes;
    })

-- The file at the end of its directory's list, with one zero byte.
abbrev pub link_file : (dir name p_file : ℕ) → Space → Space
link_file dir name p_file s = record s {
  files = put p_file (record { name = name; dir = dir; data_of = new_file }) s.files;
  dirs =
      put dir
        (record (s.dirs dir) {
          files = (s.dirs dir).files ++ (p_file ∷ []);
          nfiles = ((s.dirs dir).nfiles + 1) % 2 ^ 32;
        })
        s.dirs;
}

-- A block that is allocated for private_data and lost is left out.
unfoldable pub tmpfs_mkfile : (parent name p_file p_content p_inode : ℕ) → Space → Made
tmpfs_mkfile parent name p_file p_content p_inode s =
    let dir = (s.inodes parent).private_data in
    if (dir == 0) || ((p_file == 0) || (p_content == 0))
    then null s
    else if p_inode == 0
    then panic
    else made p_inode (record (vfs_new_id (link_file dir name p_file s)) {
      inodes =
          put p_inode
            (record {
              id = s.next_id;
              size = 0;
              mode = mode_file;
              ops = (s.inodes parent).ops;
              private_data = p_file;
            })
            s.inodes;
    })

abbrev pub max_devfs_entries : ℕ
max_devfs_entries = 32

-- devfs_mount, whose two kmallocs are not tested.
unfoldable pub devfs_mount : (dev p_inode p_ops : ℕ) → Space → Lookup
devfs_mount dev p_inode p_ops s =
    if (p_inode == 0) || (p_ops == 0)
    then fault
    else found p_inode (record s {
      inodes =
          put p_inode
            (record { id = 0; size = 0; mode = mode_dev; ops = device_ops dev; private_data = dev })
            s.inodes;
    })

-- `none` is a store through a null pointer. `name` is the device's.
unfoldable pub devfs_register_device : (dev name p_inode p_ops : ℕ) → Space → Option (ℤ × Space)
unfolding devfs_mount
devfs_register_device dev name p_inode p_ops s =
    if leb max_devfs_entries (length s.devfs_entries)
    then some (minus_one, s)
    else elim (devfs_mount dev p_inode p_ops s) [
      | not_found ↦ some (minus_one, s)
      | fault ↦ none
      | found inode s' ↦ some (
        pos 0,
        record s' {
          devfs_entries = s'.devfs_entries ++ (record { name = name; inode = inode } ∷ []);
        },
      )
    ]

unfoldable pub devfs_lookup : Texts → List ℕ → Space → Lookup
unfolding find_named
devfs_lookup texts name s =
    elim (find_named texts (λ (e : DevfsEntry). e.name) name s.devfs_entries) [
      | none ↦ not_found
      | some e ↦ found e.inode s
    ]
