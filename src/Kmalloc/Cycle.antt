-- ===== src/Kmalloc/Cycle.antt =====
-- core/memory/kmalloc.c: kfree and kptrsize of what kmalloc returned.
use bomboclaat_os.Base.{
  ℕ, ◌+◌, ◌-◌, ◌%◌, ◌^◌, ◌≤◌, ◌<◌, ◌≡◌, ◌≢◌, refl, sym, ◌∙◌, false, Option, none, some, List, ◌==◌,
  subst, arith,
}
use bomboclaat_os.Memtools.{Mem}
use bomboclaat_os.Strings.{strcmp}
use bomboclaat_os.Kmalloc.Blocks.{Block, Heap, block_size, align_up, sub64, take_block, raw_kmalloc}
use bomboclaat_os.Kmalloc.Chunk.{
  chunk_size, fill_chunk, kmalloc, release_block, raw_kfree, kfree, kptrsize,
}
use bomboclaat_os.Kmalloc.Tiles.{IsHeap, Used, Used-bounds}
use bomboclaat_os.Kmalloc.Alloc.{NoneFits, Took, take_block-Took}
use bomboclaat_os.Kmalloc.RoundTrip.{TookBack, take_block-TookBack}
use bomboclaat_os.Kmalloc.Served.{Served, raw_kmalloc-Served}
use bomboclaat_os.Kmalloc.Released.{NoMagic, Released, raw_kfree_plain, raw_kfree-Released}
use bomboclaat_os.Kmalloc.Signed.{IsChunk, IsHeap-mem, fill_chunk_sized}

-- kfree of a chunk goes on to _kfree of its header.
kfree_signed :
    (raw c size : ℕ) (h : Heap)
    → c + chunk_size < 2 ^ 64
    → IsChunk c size h.mem
    → kfree raw (c + chunk_size) h ≡ raw_kfree raw c h
unfolding kfree strcmp
kfree_signed raw c size h fits chunk =
    let nonzero : (c + chunk_size == 0) ≡ false = ground arith in
    let back : sub64 (c + chunk_size) chunk_size ≡ c = omega arith in
    rw (nonzero, back) (rw chunk.sign refl)

-- In a well-formed heap, kfree of a chunk with its signature in a used block of at least the size of
-- the chunk's header makes the block free, whatever the padding of the block's header
-- holds, keeps every other used block, makes no block used, changes no byte of the chunks, and keeps
-- the heap well formed, without neighbours that are both free; on condition that no address of the
-- heap has 0xDEADBEEF in its upper half.
pub kfree-Released :
    (raw x n size : ℕ) (h : Heap)
    → IsHeap h
    → NoMagic h
    → Used x n h.blocks
    → chunk_size ≤ n
    → IsChunk (x + block_size) size h.mem
    → Released h x (kfree raw (x + block_size + chunk_size) h)
kfree-Released raw x n size h w none_marked used room chunk =
    let (lo, hi) = Used-bounds h.heap_start h.blocks h.heap_end x n w.tiles used in
    let limit = w.limit in
    rw (kfree_signed raw (x + block_size) size h (omega arith) chunk)
      (raw_kfree-Released raw x n h w none_marked used)

-- The blocks are as before _kmalloc once the one at `x` is free, whatever the chunks hold.
abbrev pub GivenBack : Heap → Option (ℕ × Heap) → Type 0
GivenBack h = elim [
  | none ↦ Unit
  | some (p, h') ↦
      (x : ℕ) (mem : Mem)
      → p ≡ x + block_size
      → release_block x (record h' { mem = mem }) ≡ some (record h { mem = mem })
]

raw_kmalloc-GivenBack :
    (size : ℕ) (h : Heap) → IsHeap h → size ≢ 0 → GivenBack h (raw_kmalloc size h)
unfolding raw_kmalloc
raw_kmalloc-GivenBack size h w nz =
    let nonzero : (size == 0) ≡ false = ground arith in
    rw nonzero (
      given (take_block (align_up size) h.blocks)
        (take_block-Took (align_up size) h.heap_start h.blocks h.heap_end w.tiles w.apart w.start
          w.limit (omega arith))
        (take_block-TookBack (align_up size) h.heap_start h.blocks h.heap_end w.tiles w.apart
          w.start w.limit (omega arith)))
  where
    given :
        (o : Option (ℕ × List Block))
        → Took (align_up size) h.heap_start h.blocks h.heap_end o
        → TookBack h.blocks o
        → GivenBack h (elim o [
          | none ↦ none
          | some (a, bs) ↦ some ((a + block_size) % 2 ^ 64, record h { blocks = bs })
        ])
    given none u r = tt
    given (some (a, bs)) u r = λ x mem at.
        let (lo, hi) = Used-bounds h.heap_start bs h.heap_end a u.room u.tiles u.taken in
        let limit = w.limit in
        let same : x ≡ a = omega arith in rw (same, r.marks, release_block) (rw r.joins_to refl)

abbrev pub Returns : (raw size : ℕ) → Heap → Option (ℕ × Heap) → Type 0
Returns raw size h = elim [
  | none ↦ NoneFits (align_up (chunk_size + size)) h.blocks
  | some (p, h') ↦ (kptrsize p h' ≡ size) × (kfree raw p h' ≡ some (record h { mem = h'.mem }))
]

kptrsize_sized :
    (c size : ℕ) (h : Heap)
    → c + chunk_size < 2 ^ 64
    → IsChunk c size h.mem
    → kptrsize (c + chunk_size) h ≡ size
unfolding kptrsize
kptrsize_sized c size h fits chunk =
    let nonzero : (c + chunk_size == 0) ≡ false = ground arith in
    let back : sub64 (c + chunk_size) chunk_size ≡ c = omega arith in
    rw (nonzero, back) chunk.length

chunk_Returned :
    (raw p x size n : ℕ) (h h' : Heap)
    → p ≡ x + block_size + chunk_size
    → x + block_size + chunk_size < 2 ^ 64
    → IsHeap h'
    → NoMagic h'
    → Used x n h'.blocks
    → IsChunk (x + block_size) size h'.mem
    → release_block x h' ≡ some (record h { mem = h'.mem })
    → (kptrsize p h' ≡ size) × (kfree raw p h' ≡ some (record h { mem = h'.mem }))
chunk_Returned raw p x size n h h' at fits w none_marked used chunk released = rw at (
  kptrsize_sized (x + block_size) size h' fits chunk,
  kfree_signed raw (x + block_size) size h' fits chunk
      ∙ raw_kfree_plain raw x n h' w none_marked used
      ∙ released,
)

-- In a well-formed heap, if kmalloc returns a chunk, kptrsize gives the size that was asked for, and kfree of the chunk,
-- whatever the padding of the block's header holds, gives back the very blocks of before, in their
-- order and sizes; else no free block has room. On condition that the size and the header's together
-- are at most 2^64 - 8 and no address of the heap has 0xDEADBEEF in its upper half.
pub kfree-kmalloc :
    (raw size : ℕ) (h : Heap)
    → IsHeap h
    → NoMagic h
    → chunk_size + size ≤ 2 ^ 64 - 8
    → Returns raw size h (kmalloc size h)
unfolding kmalloc
kfree-kmalloc raw size h w none_marked fits =
    let at : (chunk_size + size) % 2 ^ 64 ≡ chunk_size + size = omega arith in
    rw (at, kmalloc)
      (back (raw_kmalloc (chunk_size + size) h)
        (raw_kmalloc-Served (chunk_size + size) h w (omega arith) fits)
        (raw_kmalloc-GivenBack (chunk_size + size) h w (omega arith)))
  where
    back :
        (o : Option (ℕ × Heap))
        → Served (chunk_size + size) h o
        → GivenBack h o
        → Returns raw size h (elim o [
          | none ↦ none
          | some (header, h') ↦
              some
                ((header + chunk_size) % 2 ^ 64, record h' { mem = fill_chunk header size h'.mem })
        ])
    back none none_fits given = none_fits
    back (some (header, h')) (x, here, s) given =
        let (lo, hi) = s.inside in
        let enough = s.enough in
        let limit = w.limit in
        let mem = fill_chunk header size h'.mem in
        chunk_Returned raw ((header + chunk_size) % 2 ^ 64) x size s.room h
          (record h' { mem = mem }) (omega arith) (omega arith) (IsHeap-mem h' mem s.well)
          (subst (λ (k : Heap). NoMagic k) (sym s.only) none_marked) s.taken
          (subst (λ c. IsChunk c size mem) here (fill_chunk_sized header size h'.mem (omega arith)))
          (given x mem here)
