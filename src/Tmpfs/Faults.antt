-- ===== src/Tmpfs/Faults.antt =====
-- fs/tmpfs/tmpfs.c: where a write leaves the block, and how an inode is deleted.
use bomboclaat_os.Base.{
  ℕ, ◌+◌, ◌^◌, ◌∙◌, refl, ◌≤◌, ◌<◌, ◌≡◌, ◌≢◌, true, false, none, some, List, ◌==◌, ltb, length,
  arith,
}
use bomboclaat_os.Base.Int.{pos}
use bomboclaat_os.Tmpfs.RoundTrip.{blit_lem}
use bomboclaat_os.Tmpfs.{blit, grow, tmpfs_write, Inode, mode_file, file_freed, tmpfs_delete}

-- tmpfs_write enlarges the block only if the offset or the length exceeds the file's size. So when
-- the file fills its block, appending at its end any bytes, but no more than it has, writes
-- behind the block.
pub tmpfs_write_overruns :
    (block : List ℕ) (buffer : List ℕ)
    → 0 < length buffer
    → length buffer ≤ length block
    → length block < 2 ^ 32
    → tmpfs_write (record { content = some block; size = length block }) buffer (length block)
      ≡ none
unfolding tmpfs_write grow
tmpfs_write_overruns block buffer some_bytes le small =
    let a : ltb (length block) (length block) ≡ false = ground arith in
    let b : ltb (length block) (length buffer) ≡ false = ground arith in
    let c : ltb (length block) (length block + length buffer) ≡ true = ground arith in
    let over : blit block (length block) buffer ≡ none =
      blit_lem block (length block) buffer (omega arith) ∙ rw c refl in
    rw (tmpfs_write, grow, a, b, over)

-- tmpfs_delete turns every inode into a file and frees its object as a file, whatever its mode was.
pub tmpfs_delete_as_file :
    (inode : Inode)
    → inode.private_data ≢ 0
    → tmpfs_delete (some inode)
      ≡ some (pos 0, file_freed inode.private_data, some (record inode { mode = mode_file }))
unfolding tmpfs_delete
tmpfs_delete_as_file inode h = let ne : (inode.private_data == 0) ≡ false = ground arith in rw ne
