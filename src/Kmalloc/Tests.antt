-- ===== src/Kmalloc/Tests.antt =====
-- core/memory/kmalloc.c: a heap of 1 KB, and a chunk of 100 bytes in it.
use bomboclaat_os.Base.{Option, none, some, ℕ, ◌+◌, ◌≡◌, refl, inl, true, false, [], ◌∷◌, arith}
use bomboclaat_os.Memtools.{Mem}
use bomboclaat_os.Kmalloc.Blocks.{raw_kmalloc, Heap, heap_init, take_block, split_block}
use bomboclaat_os.Kmalloc.Chunk.{fill_chunk, kmalloc, kfree, kmalloc_aligned}
use bomboclaat_os.Kmalloc.Tiles.{IsHeap}
use bomboclaat_os.Kmalloc.Released.{Released}
use bomboclaat_os.Kmalloc.Signed.{Allotted, fill_chunk_sized, kmalloc-Allotted}
use bomboclaat_os.Kmalloc.Cycle.{Returns, kfree-Released, kfree-kmalloc}

abbrev zeros : Mem
zeros q = 0

abbrev no_heap : Heap
no_heap = record { blocks = []; heap_start = 0; heap_end = 0; mem = zeros }

abbrev fresh_heap : Heap
fresh_heap = record {
  blocks = record { addr = 4096; size = 1000; free = true } ∷ [];
  heap_start = 4096;
  heap_end = 5120;
  mem = zeros;
}

-- A chunk of 100 bytes, in a block of 128.
abbrev one_chunk : Heap
one_chunk = record {
  blocks =
      record { addr = 4096; size = 128; free = false }
      ∷ record { addr = 4248; size = 848; free = true }
      ∷ [];
  heap_start = 4096;
  heap_end = 5120;
  mem = fill_chunk 4120 100 zeros;
}

init_fresh : heap_init 4096 1024 no_heap ≡ fresh_heap
unfolding heap_init
init_fresh = refl

take_one : take_block 128 fresh_heap.blocks ≡ some (4096, one_chunk.blocks)
unfolding take_block split_block
take_one = refl

abbrev pointer_of : Option (ℕ × Heap) → ℕ
pointer_of none = 0
pointer_of (some (p, h)) = p

aligned_64 : pointer_of (kmalloc_aligned 100 64 fresh_heap) ≡ 4160
unfolding kmalloc_aligned kmalloc raw_kmalloc take_block split_block
aligned_64 = refl

fresh_heap-IsHeap : IsHeap fresh_heap
fresh_heap-IsHeap = record {
  tiles = (refl, omega arith, omega arith);
  apart = (tt, tt);
  aligned_start = omega arith;
  start = omega arith;
  limit = omega arith;
}

one_chunk-IsHeap : IsHeap one_chunk
one_chunk-IsHeap = record {
  tiles = (refl, omega arith, (refl, omega arith, omega arith));
  apart = (inl refl, (tt, tt));
  aligned_start = omega arith;
  start = omega arith;
  limit = omega arith;
}

kmalloc-Allotted_example : Allotted 100 fresh_heap (kmalloc 100 fresh_heap)
kmalloc-Allotted_example = kmalloc-Allotted 100 fresh_heap fresh_heap-IsHeap (omega arith)

kfree-Released_example : Released one_chunk 4096 (kfree 0 (4096 + 24 + 24) one_chunk)
kfree-Released_example =
    kfree-Released 0 4096 128 100 one_chunk one_chunk-IsHeap (inl (omega arith))
      (inl (refl, refl, refl)) (omega arith) (fill_chunk_sized 4120 100 zeros (omega arith))

kfree-kmalloc_example : Returns 0 100 fresh_heap (kmalloc 100 fresh_heap)
kfree-kmalloc_example =
    kfree-kmalloc 0 100 fresh_heap fresh_heap-IsHeap (inl (omega arith)) (omega arith)
