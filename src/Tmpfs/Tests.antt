-- ===== src/Tmpfs/Tests.antt =====
-- fs/tmpfs/tmpfs.c: a new file, and one that fills its block.
use bomboclaat_os.Base.{ℕ, ◌+◌, ◌≡◌, refl, inl, some, List, [], ◌∷◌, arith}
use bomboclaat_os.Base.Int.{pos}
use bomboclaat_os.Tmpfs.{blit, TmpFile, new_file, realloc, grow, tmpfs_read, tmpfs_write, Inode}
use bomboclaat_os.Tmpfs.RoundTrip.{tmpfs_read-tmpfs_write}

abbrev hello : List ℕ
hello = b'h' ∷ b'e' ∷ b'l' ∷ b'l' ∷ b'o' ∷ []

abbrev directory : Inode
directory = record { mode = 0; private_data = 77 }

write_hello : tmpfs_write new_file hello 0 ≡ some (pos 5, record { content = some hello; size = 5 })
unfolding tmpfs_write grow realloc blit
write_hello = refl

tmpfs_read-tmpfs_write_example :
    (file' : TmpFile) × (tmpfs_write new_file hello 0 ≡ some (pos 5, file'))
    × (file'.size ≡ 0 + 5)
    × (tmpfs_read file' 5 0 ≡ some (pos 5, hello))
tmpfs_read-tmpfs_write_example =
    tmpfs_read-tmpfs_write new_file (0 ∷ []) hello 0 refl (omega arith) (omega arith) (omega arith)
      (omega arith) (inl (refl, omega arith))
