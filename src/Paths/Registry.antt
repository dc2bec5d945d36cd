-- ===== src/Paths/Registry.antt =====
-- fs/vfs/vfs.c and fs/devfs/devfs.c: what registering a file system or a device does to later lookups.
use bomboclaat_os.Base.{
  ℕ, ◌≡◌, ◌≢◌, refl, false, not, ◌&&◌, ◌||◌, Option, none, some, List, ◌==◌, leb, Bool-cases,
  Option-cases, subst, inl, inr, arith, length,
}
use bomboclaat_os.Base.Int.{ℤ}
use bomboclaat_os.Strings.Laws.{IsText}
use bomboclaat_os.Paths.Names.{Texts, same_text, find_named, same_text_iff}
use bomboclaat_os.Paths.Space.{Filesystem, DevfsEntry, Space}
use bomboclaat_os.Paths.Tree.{devfs_mount, devfs_register_device, max_devfs_entries}
use bomboclaat_os.Paths.Find.{vfs_find_fs, vfs_register_fs}
use bomboclaat_os.Paths.Named.{or_else, or_else-none, only_if, find_named-append, find_named-cons}

taken_stays :
    (texts : Texts) (fs c : Filesystem) (key : List ℕ) (s : Space)
    → IsText key
    → IsText (texts fs.name)
    → find_named texts (λ (c : Filesystem). c.name) (texts fs.name) s.registered_filesystems
      ≡ some c
    → vfs_find_fs texts key s
      ≡ or_else (vfs_find_fs texts key s) (only_if (same_text (texts fs.name) key) fs)
unfolding vfs_find_fs
taken_stays texts fs c key s text name_text taken =
    elim (Bool-cases (same_text (texts fs.name) key)) [
      | inl same ↦
          let equal = (same_text_iff (texts fs.name) key name_text text).0 same in
          let there : vfs_find_fs texts key s ≡ some c =
            subst (λ k. vfs_find_fs texts k s ≡ some c) equal taken in
          rw there refl
      | inr other ↦ rw other (or_else-none (vfs_find_fs texts key s))
    ]

-- The name of a file system leads to what it led to before registering one more, if to anything; only
-- a name that led nowhere and is the new one's leads to the new one. A null pointer registers nothing.
pub vfs_find_fs-vfs_register_fs :
    (texts : Texts) (fs : Filesystem) (key : List ℕ) (s : Space)
    → IsText key
    → IsText (texts fs.name)
    → vfs_find_fs texts key (vfs_register_fs texts fs s)
      ≡ or_else
          (vfs_find_fs texts key s)
          (only_if (not (fs.addr == 0) && same_text (texts fs.name) key) fs)
unfolding vfs_find_fs vfs_register_fs
vfs_find_fs-vfs_register_fs texts fs key s text name_text = elim (Bool-cases (fs.addr == 0)) [
  | inl z ↦ rw (z, vfs_register_fs) (or_else-none (vfs_find_fs texts key s))
  | inr nz ↦
      elim (Option-cases
        (find_named texts (λ (c : Filesystem). c.name) (texts fs.name) s.registered_filesystems)) [
          | inl absent ↦
              rw (nz, vfs_register_fs)
                (rw absent (
                  find_named-cons texts (λ (c : Filesystem). c.name) key fs s.registered_filesystems
                    text name_text absent))
          | inr (c, taken) ↦
              rw (nz, vfs_register_fs)
                (rw taken (taken_stays texts fs c key s text name_text taken))
        ]
]

-- What a name leads to among the devices, with the state of after devfs_register_device.
abbrev pub Registered : Texts → (name p_inode : ℕ) → Space → Option (ℤ × Space) → Type 0
Registered texts name p_inode s none = ⊥
Registered texts name p_inode s (some (r, s')) =
    (key : List ℕ)
    → find_named texts (λ (e : DevfsEntry). e.name) key s'.devfs_entries
      ≡ or_else (find_named texts (λ (e : DevfsEntry). e.name) key s.devfs_entries) (
          only_if
            ((not (leb max_devfs_entries (length s.devfs_entries))) && same_text (texts name) key)
            (record { name = name; inode = p_inode }))

-- With memory for the inode and its operations, devfs_register_device keeps what each name leads to; a
-- name that led nowhere leads to the new device if it is the device's, and there were fewer than 32
-- devices.
pub devfs_register_device-Registered :
    (texts : Texts) (dev name p_inode p_ops : ℕ) (s : Space)
    → p_inode ≢ 0
    → p_ops ≢ 0
    → Registered texts name p_inode s (devfs_register_device dev name p_inode p_ops s)
unfolding devfs_register_device devfs_mount
devfs_register_device-Registered texts dev name p_inode p_ops s inode_ne ops_ne =
    elim (Bool-cases (leb max_devfs_entries (length s.devfs_entries))) [
      | inl full ↦
          rw (full, devfs_register_device)
            (λ key.
              rw full
                (or_else-none (find_named texts (λ (e : DevfsEntry). e.name) key s.devfs_entries)))
      | inr room ↦
          let there : ((p_inode == 0) || (p_ops == 0)) ≡ false = ground arith in
          rw (room, devfs_register_device)
            (rw (there, devfs_mount)
              (λ key. rw room (
                find_named-append texts (λ (e : DevfsEntry). e.name) key s.devfs_entries
                  (record { name = name; inode = p_inode }))))
    ]
