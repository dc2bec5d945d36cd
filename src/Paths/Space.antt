-- ===== src/Paths/Space.antt =====
-- The objects behind names: inodes, directory entries, directories and files of tmpfs, the devices,
-- and the globals of fs/vfs/vfs.c.
use bomboclaat_os.Base.{ℕ, ◌+◌, ◌%◌, ◌^◌, List, ◌==◌, if◌then◌else◌}
use bomboclaat_os.Tmpfs.{TmpFile}

-- `struct vfs_inode_ops`: the tables of the sources, and the one that devfs_mount makes for a device.
pub data OpsTable : Type 0 where
  no_ops tmpfs_inode_ops devfs_inode_ops : OpsTable
  device_ops : ℕ → OpsTable

-- `vfs_inode_t`
pub record VfsInode : Type 0 where
  pub id : ℕ
  pub size : ℕ
  pub mode : ℕ
  pub ops : OpsTable
  pub private_data : ℕ

-- `vfs_dentry_t`
pub record Dentry : Type 0 where
  pub name : ℕ
  pub inode : ℕ
  pub mounted_inode : ℕ
  pub parent : ℕ

-- `tmpfs_dir_t`; the lists are those of the nodes that the list heads link.
pub record TmpDir : Type 0 where
  pub name : ℕ
  pub parent_dir : ℕ
  pub subdirs : List ℕ
  pub files : List ℕ
  pub nfiles : ℕ
  pub size : ℕ

-- `tmpfs_file_t`
pub record TmpEntry : Type 0 where
  pub name : ℕ
  pub dir : ℕ
  pub data_of : TmpFile

-- `filesystem_t`, at `addr`
pub record Filesystem : Type 0 where
  pub addr : ℕ
  pub name : ℕ

-- `struct devfs_entry`
pub record DevfsEntry : Type 0 where
  pub name : ℕ
  pub inode : ℕ

-- The objects by their pointers, and the globals.
pub record Space : Type 0 where
  pub inodes : ℕ → VfsInode
  pub dentries : ℕ → Dentry
  pub dirs : ℕ → TmpDir
  pub files : ℕ → TmpEntry
  pub next_id : ℕ
  pub vfs_root_dentry : ℕ
  pub root_inode : ℕ
  pub registered_filesystems : List Filesystem
  pub tmpfs_root : ℕ
  pub devfs_root_inode : ℕ
  pub devfs_entries : List DevfsEntry

abbrev pub put {ℓ} : {A : Type ℓ} → ℕ → A → (ℕ → A) → ℕ → A
put p x store q = if p == q then x else store q

abbrev pub mode_dev : ℕ
mode_dev = 2

-- vfs_new_id: the state that it leaves; the identifier is `next_id` of before.
abbrev pub vfs_new_id : Space → Space
vfs_new_id s = record s { next_id = (s.next_id + 1) % 2 ^ 32 }
