-- ===== src/Paths/Mounted.antt =====
-- fs/vfs/vfs.c: what vfs_mount returns, and what it does to later lookups.
use bomboclaat_os.Base.{
  ℕ, ◌≡◌, ◌≢◌, ◌⊎◌, ◌↔◌, refl, sym, ap, ◌∙◌, Bool, true, false, if◌then◌else◌, false≢true, none,
  some, Option-cases, List, ◌==◌, ==_iff, ==_false, Bool-cases, inl, inr, arith,
}
use bomboclaat_os.Strings.Laws.{IsText}
use bomboclaat_os.Paths.Names.{Texts, same_text, same_text_iff}
use bomboclaat_os.Paths.Space.{Filesystem, Space, put}
use bomboclaat_os.Paths.Find.{
  slash, DentryResult, no_entry, entry_fault, entry, vfs_find, set_mounted, vfs_find_fs,
  MountResult, enoent, esrmnt, mount_fault, mounted, vfs_mount,
}
use bomboclaat_os.Paths.Mounts.{inode_found, vfs_find-set_mounted}

-- What vfs_mount may return. `q_inode` and `q_dentry` serve a vfs_find of `path`, or of the root, behind
-- it.
abbrev pub MountOutcome :
    Texts
    → (target : ℕ) (fs_type : List ℕ) (mount : Filesystem → ℕ)
      (p_inode p_dentry path q_inode q_dentry : ℕ)
    → Space
    → MountResult × Space
    → Type 0
MountOutcome texts target fs_type mount p_inode p_dentry path q_inode q_dentry s (enoent, s') =
    (vfs_find_fs texts fs_type s ≡ none) × (s' ≡ s)
MountOutcome texts target fs_type mount p_inode p_dentry path q_inode q_dentry s (esrmnt, s') =
    (fs : Filesystem) × (vfs_find_fs texts fs_type s ≡ some fs)
    × (((mount fs ≡ 0) × (s' ≡ s))
        ⊎ ((texts target ≢ slash) × (vfs_find texts target p_inode p_dentry s ≡ no_entry s')))
MountOutcome texts target fs_type mount p_inode p_dentry path q_inode q_dentry s (mount_fault, s') =
    (fs : Filesystem) × (vfs_find_fs texts fs_type s ≡ some fs)
    × (mount fs ≢ 0)
    × (s' ≡ s)
    × (((texts target ≡ slash) × (p_dentry ≡ 0))
        ⊎ (vfs_find texts target p_inode p_dentry s ≡ entry_fault))
MountOutcome texts target fs_type mount p_inode p_dentry path q_inode q_dentry s (mounted, s') =
    (fs : Filesystem) × (vfs_find_fs texts fs_type s ≡ some fs)
    × (mount fs ≢ 0)
    × (((texts target ≡ slash)
          × (inode_found (vfs_find texts target q_inode q_dentry s')
              ≡ some (mount fs, s.inodes (mount fs))))
        ⊎ ((texts target ≢ slash)
            × ((d : ℕ) × (s1 : Space) × (vfs_find texts target p_inode p_dentry s ≡ entry d s1)
                × (s'.dentries d ≡ record (s1.dentries d) { mounted_inode = mount fs })
                × (inode_found (vfs_find texts path q_inode q_dentry s')
                    ≡ inode_found (vfs_find texts path q_inode q_dentry s1)))))

-- vfs_find of "/" gives the root's entry.
vfs_find-slash :
    (texts : Texts) (target q_inode q_dentry : ℕ) (s : Space)
    → target ≢ 0
    → texts target ≡ slash
    → vfs_find texts target q_inode q_dentry s ≡ entry s.vfs_root_dentry s
unfolding vfs_find
vfs_find-slash texts target q_inode q_dentry s given root =
    let there = ==_false target 0 given in
    let same = (same_text_iff slash slash (omega arith, tt) (omega arith, tt)).1 refl in
    rw (there, root, same, vfs_find) refl

-- vfs_mount of a type for which vfs_find_fs finds nothing returns ENOENT and changes nothing. It returns
-- ESRMNT if the file system's own mount gives no inode, and then changes nothing, or if vfs_find does
-- not find the target, which is not the root. It writes to a null pointer only without memory for the
-- root's entry, or where vfs_find of the target does. Else it returns 0. At the root, vfs_find of the
-- target then leads to the inode that was mounted. At another target, the entry that vfs_find made for
-- the target has the inode as its mounted inode and is else as it was, and each path leads to the very
-- inode that it leads to after that vfs_find alone. The target is to be a string that is not null.
pub vfs_mount-MountOutcome :
    (texts : Texts) (target : ℕ) (fs_type : List ℕ) (mount : Filesystem → ℕ)
    (root_name p_inode p_dentry path q_inode q_dentry : ℕ) (s : Space)
    → target ≢ 0
    → IsText (texts target)
    → MountOutcome texts target fs_type mount p_inode p_dentry path q_inode q_dentry s
        (vfs_mount texts target fs_type mount root_name p_inode p_dentry s)
unfolding vfs_mount
vfs_mount-MountOutcome texts target fs_type mount root_name p_inode p_dentry path q_inode q_dentry s
      given text =
    elim (Option-cases (vfs_find_fs texts fs_type s)) [
      | inl unknown ↦ rw (unknown, vfs_mount) (unknown, refl)
      | inr (fs, known) ↦ elim (Bool-cases (mount fs == 0)) [
        | inl failed ↦ rw (known, failed, vfs_mount) (fs, known, inl (ground arith, refl))
        | inr worked ↦
            rw (known, worked, vfs_mount)
              (at_place fs known (ground arith) (same_text (texts target) slash) refl)
      ]
    ]
  where
    is_slash : (same_text (texts target) slash ≡ true) ↔ (texts target ≡ slash)
    is_slash = same_text_iff (texts target) slash text (omega arith, tt)

    at_target :
        (fs : Filesystem)
        → mount fs ≢ 0
        → vfs_find_fs texts fs_type s ≡ some fs
        → texts target ≢ slash
        → (r : DentryResult) → vfs_find texts target p_inode p_dentry s ≡ r
        → MountOutcome texts target fs_type mount p_inode p_dentry path q_inode q_dentry s (elim r [
          | no_entry s' ↦ (esrmnt, s')
          | entry_fault ↦ (mount_fault, s)
          | entry d s' ↦ (mounted, set_mounted d (mount fs) s')
        ])
    at_target fs worked known not_root (no_entry s') e = (fs, known, inr (not_root, e))
    at_target fs worked known not_root entry_fault e = (fs, known, worked, refl, inr e)
    at_target fs worked known not_root (entry d s1) e =
        let self = (==_iff d d).1 refl in
        (
          fs,
          known,
          worked,
          inr (
            not_root,
            (
              d,
              s1,
              e,
              rw self refl,
              vfs_find-set_mounted texts path q_inode q_dentry d (mount fs) s1,
            ),
          ),
        )

    at_place :
        (fs : Filesystem)
        → vfs_find_fs texts fs_type s ≡ some fs
        → mount fs ≢ 0
        → (root : Bool) → same_text (texts target) slash ≡ root
        → MountOutcome texts target fs_type mount p_inode p_dentry path q_inode q_dentry s (
            if root
            then (if p_dentry == 0 then (mount_fault, s) else (
              mounted,
              record s {
                root_inode = mount fs;
                vfs_root_dentry = p_dentry;
                dentries =
                    put p_dentry
                      (record {
                        name = root_name;
                        inode = mount fs;
                        mounted_inode = 0;
                        parent = p_dentry;
                      })
                      s.dentries;
              },
            ))
            else elim (vfs_find texts target p_inode p_dentry s) [
              | no_entry s' ↦ (esrmnt, s')
              | entry_fault ↦ (mount_fault, s)
              | entry d s' ↦ (mounted, set_mounted d (mount fs) s')
            ])
    at_place fs known worked true e =
        let root = is_slash.0 e in
        elim (Bool-cases (p_dentry == 0)) [
          | inl full ↦ rw full (fs, known, worked, refl, inl (root, (==_iff p_dentry 0).0 full))
          | inr room ↦
              let self = (==_iff p_dentry p_dentry).1 refl in
              rw room (
                fs,
                known,
                worked,
                inl (
                  root,
                  ap inode_found (vfs_find-slash texts target q_inode q_dentry _ given root)
                      ∙ rw self refl,
                ),
              )
        ]
    at_place fs known worked false e =
        at_target fs worked known (λ root. false≢true (sym e ∙ is_slash.1 root))
          (vfs_find texts target p_inode p_dentry s) refl
