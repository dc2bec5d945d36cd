-- ===== src/Paths/Mounts.antt =====
-- fs/vfs/vfs.c: lookups do not read the mounted inode of an entry.
use bomboclaat_os.Base.{
  ℕ, ◌+◌, ◌≡◌, refl, ap, ◌∙◌, true, not, ◌&&◌, ◌||◌, Option, none, some, List, ◌==◌, Bool-cases,
  inl, inr, arith, drop,
}
use bomboclaat_os.Paths.Names.{Texts, same_text, find_named}
use bomboclaat_os.Paths.Space.{
  OpsTable, no_ops, tmpfs_inode_ops, devfs_inode_ops, device_ops, VfsInode, Dentry, DevfsEntry,
  Space,
}
use bomboclaat_os.Paths.Tree.{
  tmpfs_find_file, Lookup, not_found, fault, found, tmpfs_lookup, devfs_lookup, file_inode,
}
use bomboclaat_os.Paths.Find.{
  slash, not_rooted, in_dev, lookup, DentryResult, no_entry, entry_fault, entry, new_entry,
  vfs_find, set_mounted,
}

-- The inode that the entry leads to, with its pointer.
abbrev pub inode_found : DentryResult → Option (ℕ × VfsInode)
inode_found (no_entry s) = none
inode_found entry_fault = none
inode_found (entry d s) = some ((s.dentries d).inode, s.inodes (s.dentries d).inode)

-- The result, with other directory entries.
abbrev with_dentries : (ℕ → Dentry) → Lookup → Lookup
with_dentries ds not_found = not_found
with_dentries ds fault = fault
with_dentries ds (found inode s) = found inode (record s { dentries = ds })

file_inode_apart :
    (p_inode file : ℕ) (s : Space) (ds : ℕ → Dentry)
    → file_inode p_inode file (record s { dentries = ds })
      ≡ with_dentries ds (file_inode p_inode file s)
file_inode_apart p_inode file s ds = elim (Bool-cases (p_inode == 0)) [
  | inl z ↦ rw z refl
  | inr nz ↦ rw nz refl
]

lookup_apart :
    (texts : Texts) (inode : ℕ) (key : List ℕ) (p_inode : ℕ) (s : Space) (ds : ℕ → Dentry)
    → lookup texts inode key p_inode (record s { dentries = ds })
      ≡ with_dentries ds (lookup texts inode key p_inode s)
unfolding lookup tmpfs_lookup devfs_lookup tmpfs_find_file
lookup_apart texts inode key p_inode s ds = by_ops (s.inodes inode).ops
  where
    by_tmpfs :
        (o : Option ℕ)
        → ◌≡◌ {A = Lookup}
            (elim o [
              | none ↦ not_found
              | some file ↦ file_inode p_inode file (record s { dentries = ds })
            ])
            (with_dentries ds (elim o [ none ↦ not_found | some file ↦ file_inode p_inode file s ]))
    by_tmpfs none = refl
    by_tmpfs (some file) = file_inode_apart p_inode file s ds

    by_devfs :
        (o : Option DevfsEntry)
        → ◌≡◌ {A = Lookup}
            (elim o [ none ↦ not_found | some e ↦ found e.inode (record s { dentries = ds }) ])
            (with_dentries ds (elim o [ none ↦ not_found | some e ↦ found e.inode s ]))
    by_devfs none = refl
    by_devfs (some e) = refl

    by_ops :
        (ops : OpsTable)
        → ◌≡◌ {A = Lookup}
            (elim ops [
              | no_ops ↦ not_found
              | tmpfs_inode_ops ↦ tmpfs_lookup texts inode key p_inode (record s { dentries = ds })
              | devfs_inode_ops ↦ devfs_lookup texts key (record s { dentries = ds })
              | device_ops dev ↦ not_found
            ])
            (with_dentries ds (elim ops [
              | no_ops ↦ not_found
              | tmpfs_inode_ops ↦ tmpfs_lookup texts inode key p_inode s
              | devfs_inode_ops ↦ devfs_lookup texts key s
              | device_ops dev ↦ not_found
            ]))
    by_ops no_ops = refl
    by_ops tmpfs_inode_ops = by_tmpfs (tmpfs_find_file texts s (s.inodes inode).private_data key)
    by_ops devfs_inode_ops =
        by_devfs (find_named texts (λ (e : DevfsEntry). e.name) key s.devfs_entries)
    by_ops (device_ops dev) = refl

new_entry_apart :
    (name p_dentry : ℕ) (s : Space) (ds : ℕ → Dentry) (l : Lookup)
    → inode_found (new_entry name p_dentry (record s { dentries = ds }) (with_dentries ds l))
      ≡ inode_found (new_entry name p_dentry s l)
new_entry_apart name p_dentry s ds not_found = refl
new_entry_apart name p_dentry s ds fault = refl
new_entry_apart name p_dentry s ds (found inode s') = elim (Bool-cases (p_dentry == 0)) [
  | inl z ↦ rw z refl
  | inr nz ↦ let self : (p_dentry == p_dentry) ≡ true = ground arith in rw nz (rw self refl)
]

lookup_entry_apart :
    (texts : Texts) (name inode : ℕ) (key : List ℕ) (p_inode p_dentry : ℕ) (s : Space)
    (ds : ℕ → Dentry)
    → inode_found (
        new_entry name p_dentry
          (record s { dentries = ds })
          (lookup texts inode key p_inode (record s { dentries = ds })))
      ≡ inode_found (new_entry name p_dentry s (lookup texts inode key p_inode s))
lookup_entry_apart texts name inode key p_inode p_dentry s ds =
    ap (λ l. inode_found (new_entry name p_dentry (record s { dentries = ds }) l))
      (lookup_apart texts inode key p_inode s ds)
    ∙ new_entry_apart name p_dentry s ds (lookup texts inode key p_inode s)

mounted_inode_kept :
    (d inode q : ℕ) (s : Space) → ((set_mounted d inode s).dentries q).inode ≡ (s.dentries q).inode
mounted_inode_kept d inode q s = elim (Bool-cases (d == q)) [
  | inl same ↦ let e : d ≡ q = ground arith in rw same (ap (λ p. (s.dentries p).inode) e)
  | inr other ↦ rw other refl
]

-- Setting the mounted inode of an entry changes for no path the inode that vfs_find leads to.
pub vfs_find-set_mounted :
    (texts : Texts) (path p_inode p_dentry dentry inode : ℕ) (s : Space)
    → inode_found (vfs_find texts path p_inode p_dentry (set_mounted dentry inode s))
      ≡ inode_found (vfs_find texts path p_inode p_dentry s)
unfolding vfs_find
vfs_find-set_mounted texts path p_inode p_dentry dentry inode s =
    let key = texts path in
    let ds = (set_mounted dentry inode s).dentries in
    elim (Bool-cases ((path == 0) || not_rooted key)) [
      | inl bad ↦ rw (bad, vfs_find) refl
      | inr rooted ↦ elim (Bool-cases (same_text key slash)) [
        | inl root ↦
            rw (rooted, vfs_find)
              (rw root (
                ap (λ i. some (i, s.inodes i))
                  (mounted_inode_kept dentry inode s.vfs_root_dentry s)))
        | inr below ↦ elim (Bool-cases (in_dev key && not (s.devfs_root_inode == 0))) [
          | inl dev ↦
              rw (rooted, vfs_find)
                (rw (below, dev)
                  (lookup_entry_apart texts (path + 5) s.devfs_root_inode (drop 5 key) p_inode
                    p_dentry s ds))
          | inr plain ↦
              rw (rooted, vfs_find)
                (rw (below, plain)
                  (lookup_entry_apart texts path s.root_inode key p_inode p_dentry s ds))
        ]
      ]
    ]
