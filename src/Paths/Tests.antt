-- ===== src/Paths/Tests.antt =====
-- fs/vfs/vfs.c, fs/tmpfs/tmpfs.c, fs/devfs/devfs.c: a root with one file and a device.
use bomboclaat_os.Base.{
  ◌≡◌, refl, Bool, true, false, none, some, [], ◌∷◌, ◌==◌, if◌then◌else◌, arith,
}
use bomboclaat_os.Strings.{strcmp, strncmp, strncmp_up_to}
use bomboclaat_os.Tmpfs.{new_file}
use bomboclaat_os.Paths.Names.{Texts, same_text, find_named}
use bomboclaat_os.Paths.Space.{tmpfs_inode_ops, Filesystem, Space}
use bomboclaat_os.Paths.Tree.{tmpfs_find_file, tmpfs_lookup, tmpfs_mkfile}
use bomboclaat_os.Paths.Find.{
  in_dev, lookup, vfs_find, vfs_find_fs, MountResult, enoent, esrmnt, mount_fault, mounted,
  vfs_mount,
}
use bomboclaat_os.Paths.Create.{MadeFile, tmpfs_mkfile-MadeFile}
use bomboclaat_os.Paths.Reach.{CreatedAt, vfs_find-tmpfs_mkfile}
use bomboclaat_os.Paths.Mounted.{MountOutcome, vfs_mount-MountOutcome}

-- The strings: "tty" at 10, "/b" at 20, "tmpfs" at 30, and "/a" elsewhere.
abbrev names : Texts
names p =
    if p == 10
    then b't' ∷ b't' ∷ b'y' ∷ []
    else if p == 20
    then b'/' ∷ b'b' ∷ []
    else if p == 30
    then b't' ∷ b'm' ∷ b'p' ∷ b'f' ∷ b's' ∷ []
    else b'/' ∷ b'a' ∷ []

-- The root inode is 1, its directory 2, with the file "/a" at 3.
abbrev space : Space
space = record {
  inodes = λ p. record { id = p; size = 0; mode = 0; ops = tmpfs_inode_ops; private_data = 2 };
  dentries = λ p. record { name = 0; inode = 1; mounted_inode = 0; parent = 0 };
  dirs =
      λ p. record { name = 0; parent_dir = 2; subdirs = []; files = 3 ∷ []; nfiles = 1; size = 0 };
  files = λ p. record { name = 40; dir = 2; data_of = new_file };
  next_id = 5;
  vfs_root_dentry = 6;
  root_inode = 1;
  registered_filesystems = [];
  tmpfs_root = 2;
  devfs_root_inode = 0;
  devfs_entries = [];
}

abbrev tmpfs : Filesystem
tmpfs = record { addr = 50; name = 30 }

old_file : tmpfs_find_file names space 2 (names 40) ≡ some 3
unfolding tmpfs_find_file find_named same_text strcmp
old_file = refl

no_new_file : tmpfs_find_file names space 2 (names 20) ≡ none
unfolding tmpfs_find_file find_named same_text strcmp
no_new_file = refl

b_plain : same_text (names 20) (b'/' ∷ []) ≡ false
unfolding same_text strcmp
b_plain = refl

b_not_dev : in_dev (names 20) ≡ false
unfolding in_dev strncmp strncmp_up_to
b_not_dev = refl

dev_tty : in_dev (b'/' ∷ b'd' ∷ b'e' ∷ b'v' ∷ b'/' ∷ b't' ∷ []) ≡ true
unfolding in_dev strncmp strncmp_up_to
dev_tty = refl

tmpfs_mkfile-MadeFile_example : MadeFile names 2 20 7 8 9 space (tmpfs_mkfile 1 20 7 8 9 space)
tmpfs_mkfile-MadeFile_example = tmpfs_mkfile-MadeFile names 1 20 7 8 9 space (omega arith, tt)

vfs_find-tmpfs_mkfile_example : CreatedAt names 20 7 11 12 (tmpfs_mkfile 1 20 7 8 9 space)
vfs_find-tmpfs_mkfile_example =
    vfs_find-tmpfs_mkfile names 20 7 8 9 20 11 12 space refl (omega arith) (omega arith, tt)
      (omega arith) (omega arith) (omega arith) (omega arith) no_new_file (omega arith) refl refl
      b_plain b_not_dev (omega arith, (omega arith, tt)) (omega arith) (omega arith)

-- The same root, and a file system of type "tmpfs".
abbrev with_tmpfs : Space
with_tmpfs = record space { registered_filesystems = record { addr = 50; name = 30 } ∷ [] }

is_mounted : MountResult → Bool
is_mounted enoent = false
is_mounted esrmnt = false
is_mounted mount_fault = false
is_mounted mounted = true

mount_at_a : is_mounted (vfs_mount names 40 (names 30) (λ fs. 77) 60 11 12 with_tmpfs).0 ≡ true
unfolding is_mounted vfs_mount vfs_find_fs find_named same_text strcmp vfs_find in_dev strncmp
    strncmp_up_to lookup tmpfs_lookup tmpfs_find_file
mount_at_a = refl

vfs_mount-MountOutcome_example :
    MountOutcome names 40
      (names 30)
      (λ fs. 77)
      11
      12
      20
      13
      14
      with_tmpfs
      (vfs_mount names 40 (names 30) (λ fs. 77) 60 11 12 with_tmpfs)
vfs_mount-MountOutcome_example =
    vfs_mount-MountOutcome names 40 (names 30) (λ fs. 77) 60 11 12 20 13 14 with_tmpfs (omega arith)
      (omega arith, (omega arith, tt))
