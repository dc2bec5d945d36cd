-- ===== src/Kmalloc/Served.antt =====
-- core/memory/kmalloc.c: what _kmalloc and _kfree do to the heap.
use bomboclaat_os.Base.{
  ℕ, ◌+◌, ◌-◌, ◌%◌, ◌^◌, ◌≤◌, ◌≡◌, ◌≢◌, refl, sym, ◌⊎◌, inl, inr, false, Option, none, some, List,
  [], ◌∷◌, ◌==◌, subst, arith,
}
use bomboclaat_os.Kmalloc.Blocks.{Block, Heap, block_size, align_up, take_block, raw_kmalloc}
use bomboclaat_os.Kmalloc.Tiles.{Tiles, IsHeap, Used, Used-bounds, Used-apart}
use bomboclaat_os.Kmalloc.Alloc.{NoneFits, Taken, Took, take_block-Took}

-- A block with `size` bytes or more, that no used block of `h` overlaps, has become used at `x`.
pub record Serves (size : ℕ) (h : Heap) (x : ℕ) (h' : Heap) : Type 0 where
  pub room : ℕ
  pub enough : size ≤ room
  pub aligned : x % 8 ≡ 0
  pub taken : Used x room h'.blocks
  pub inside : (h.heap_start ≤ x) × (x + block_size + room ≤ h.heap_end)
  pub fresh : (y n : ℕ) → Used y n h.blocks → (x + block_size + room ≤ y) ⊎ (y + block_size + n ≤ x)
  pub kept : (y n : ℕ) → Used y n h.blocks → Used y n h'.blocks
  pub no_other : (y n : ℕ) → Used y n h'.blocks → ((y ≡ x) × (n ≡ room)) ⊎ Used y n h.blocks
  pub well : IsHeap h'
  pub only : h' ≡ record h { blocks = h'.blocks }

abbrev pub Served : ℕ → Heap → Option (ℕ × Heap) → Type 0
Served size h = elim [
  | none ↦ NoneFits (align_up size) h.blocks
  | some (p, h') ↦ (x : ℕ) × (p ≡ x + block_size) × Serves size h x h'
]

-- The address of a used block is aligned.
Used-aligned : (a : ℕ) (bs : List Block) (e x n : ℕ) → Tiles a bs e → Used x n bs → x % 8 ≡ 0
Used-aligned a [] e x n t used = absurd used
Used-aligned a (b ∷ bs) e x n (at, aligned, t) (inl (h, k, f)) = omega arith
Used-aligned a (b ∷ bs) e x n (at, aligned, t) (inr used) =
    Used-aligned (a + block_size + b.size) bs e x n t used

Taken-Serves :
    (size : ℕ) (h : Heap) (x : ℕ) (bs : List Block)
    → IsHeap h
    → size ≤ align_up size
    → Taken (align_up size) h.heap_start h.blocks h.heap_end x bs
    → Serves size h x (record h { blocks = bs })
Taken-Serves size h x bs w up u =
    let enough = u.enough in
    record {
      room = u.room;
      enough = omega arith;
      aligned = Used-aligned h.heap_start bs h.heap_end x u.room u.tiles u.taken;
      taken = u.taken;
      inside = Used-bounds h.heap_start bs h.heap_end x u.room u.tiles u.taken;
      fresh = λ y n used.
          elim (Used-apart h.heap_start bs h.heap_end x u.room y n u.tiles u.taken
            (u.kept y n used)) [
              | inl (same, e) ↦ absurd (u.fresh n (subst (λ z. Used z n h.blocks) (sym same) used))
              | inr apart ↦ apart
            ];
      kept = u.kept;
      no_other = u.no_other;
      well = record {
        tiles = u.tiles;
        apart = u.apart;
        aligned_start = w.aligned_start;
        start = w.start;
        limit = w.limit;
      };
      only = refl;
    }

-- _kmalloc of one byte or more, and of no more than 2^64 - 8, returns the address behind the header of
-- a block that was free and now is used, aligned to 8 bytes, with all the bytes asked for, in the heap
-- and apart from every used block; these stay, no other block becomes used, and the heap stays well
-- formed. It returns null only if no free block has the size, rounded up to a multiple of 8.
pub raw_kmalloc-Served :
    (size : ℕ) (h : Heap)
    → IsHeap h
    → size ≢ 0
    → size ≤ 2 ^ 64 - 8
    → Served size h (raw_kmalloc size h)
unfolding raw_kmalloc
raw_kmalloc-Served size h w nz fits =
    let nonzero : (size == 0) ≡ false = ground arith in
    rw nonzero (
      serve (take_block (align_up size) h.blocks) (
        take_block-Took (align_up size) h.heap_start h.blocks h.heap_end w.tiles w.apart w.start
          w.limit (omega arith)))
  where
    serve :
        (o : Option (ℕ × List Block))
        → Took (align_up size) h.heap_start h.blocks h.heap_end o
        → Served size h (elim o [
          | none ↦ none
          | some (a, bs) ↦ some ((a + block_size) % 2 ^ 64, record h { blocks = bs })
        ])
    serve none none_fits = none_fits
    serve (some (x, bs)) u =
        let s = Taken-Serves size h x bs w (omega arith) u in
        let (lo, hi) = s.inside in let limit = w.limit in (x, omega arith, s)
