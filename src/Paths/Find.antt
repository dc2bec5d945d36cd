-- ===== src/Paths/Find.antt =====
-- fs/vfs/vfs.c: from a path to a directory entry, mounts, and the list of file systems.
use bomboclaat_os.Base.{
  ℕ, ◌+◌, Bool, true, not, ◌&&◌, ◌||◌, Option, none, some, List, [], ◌∷◌, ◌++◌, ◌==◌, if◌then◌else◌,
  drop,
}
use bomboclaat_os.Base.Int.{pos}
use bomboclaat_os.Strings.{strncmp}
use bomboclaat_os.Paths.Names.{Texts, is_zero, same_text, find_named}
use bomboclaat_os.Paths.Space.{
  no_ops, tmpfs_inode_ops, devfs_inode_ops, device_ops, Filesystem, Space, put,
}
use bomboclaat_os.Paths.Tree.{Lookup, not_found, fault, found, tmpfs_lookup, devfs_lookup}

abbrev pub slash : List ℕ
slash = b'/' ∷ []

abbrev pub dev_prefix : List ℕ
dev_prefix = b'/' ∷ b'd' ∷ b'e' ∷ b'v' ∷ b'/' ∷ []

-- `path[0] != '/'`
abbrev pub not_rooted : List ℕ → Bool
not_rooted [] = true
not_rooted (c ∷ cs) = not (c == b'/')

-- `strncmp(path, "/dev/", 5) == 0`
unfoldable pub in_dev : List ℕ → Bool
in_dev path = is_zero (strncmp (path ++ (0 ∷ [])) (dev_prefix ++ (0 ∷ [])) (pos 5))

-- `inode->ops->lookup`
unfoldable pub lookup : Texts → (inode : ℕ) → List ℕ → (p_inode : ℕ) → Space → Lookup
unfolding tmpfs_lookup devfs_lookup
lookup texts inode name p_inode s = elim (s.inodes inode).ops [
  | no_ops ↦ not_found
  | tmpfs_inode_ops ↦ tmpfs_lookup texts inode name p_inode s
  | devfs_inode_ops ↦ devfs_lookup texts name s
  | device_ops dev ↦ not_found
]

-- The directory entry of a path: `no_entry` is a null pointer.
pub data DentryResult : Type 0 where
  no_entry : Space → DentryResult
  entry_fault : DentryResult
  entry : (dentry : ℕ) → Space → DentryResult

-- The new directory entry for what the lookup found.
abbrev pub new_entry : (name p_dentry : ℕ) → Space → Lookup → DentryResult
new_entry name p_dentry s not_found = no_entry s
new_entry name p_dentry s fault = entry_fault
new_entry name p_dentry s (found inode s') =
    if p_dentry == 0
    then no_entry s'
    else entry p_dentry (record s' {
      dentries =
          put p_dentry (record { name = name; inode = inode; mounted_inode = 0; parent = 0 })
            s'.dentries;
    })

unfoldable pub vfs_find : Texts → (path p_inode p_dentry : ℕ) → Space → DentryResult
unfolding lookup in_dev
vfs_find texts path p_inode p_dentry s =
    let key = texts path in
    if (path == 0) || not_rooted key
    then no_entry s
    else if same_text key slash
    then entry s.vfs_root_dentry s
    else if in_dev key && not (s.devfs_root_inode == 0)
    then new_entry (path + 5) p_dentry s (lookup texts s.devfs_root_inode (drop 5 key) p_inode s)
    else new_entry path p_dentry s (lookup texts s.root_inode key p_inode s)

unfoldable pub vfs_find_fs : Texts → List ℕ → Space → Option Filesystem
unfolding find_named
vfs_find_fs texts name s =
    find_named texts (λ (fs : Filesystem). fs.name) name s.registered_filesystems

-- A file system with a name that is taken is refused.
unfoldable pub vfs_register_fs : Texts → Filesystem → Space → Space
unfolding find_named
vfs_register_fs texts fs s =
    if fs.addr == 0
    then s
    else elim (find_named texts (λ (c : Filesystem). c.name) (texts fs.name)
        s.registered_filesystems) [
          | none ↦ record s { registered_filesystems = fs ∷ s.registered_filesystems }
          | some c ↦ s
        ]

pub data MountResult : Type 0 where
  enoent esrmnt mount_fault : MountResult
  mounted : MountResult

-- `target_dentry->mounted_inode = target_inode`
abbrev pub set_mounted : (dentry inode : ℕ) → Space → Space
set_mounted d inode s = record s {
  dentries = put d (record (s.dentries d) { mounted_inode = inode }) s.dentries;
}

-- `mount` is the inode that the file system's own mount returned. `p_dentry` serves the new root entry,
-- or vfs_find; `root_name` is where the constant "/" is. That the inode is freed again when vfs_find finds
-- nothing is left out.
unfoldable pub vfs_mount :
    Texts
    → (target : ℕ) (fs_type : List ℕ) (mount : Filesystem → ℕ) (root_name p_inode p_dentry : ℕ)
    → Space
    → MountResult × Space
unfolding vfs_find vfs_find_fs
vfs_mount texts target fs_type mount root_name p_inode p_dentry s =
    elim (vfs_find_fs texts fs_type s) [
      | none ↦ (enoent, s)
      | some fs ↦
          let target_inode = mount fs in
          if target_inode == 0
          then (esrmnt, s)
          else if same_text (texts target) slash
          then (if p_dentry == 0 then (mount_fault, s) else (
            mounted,
            record s {
              root_inode = target_inode;
              vfs_root_dentry = p_dentry;
              dentries =
                  put p_dentry
                    (record {
                      name = root_name;
                      inode = target_inode;
                      mounted_inode = 0;
                      parent = p_dentry;
                    })
                    s.dentries;
            },
          ))
          else elim (vfs_find texts target p_inode p_dentry s) [
            | no_entry s' ↦ (esrmnt, s')
            | entry_fault ↦ (mount_fault, s)
            | entry d s' ↦ (mounted, set_mounted d target_inode s')
          ]
    ]
