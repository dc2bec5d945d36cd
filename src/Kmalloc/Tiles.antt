-- ===== src/Kmalloc/Tiles.antt =====
-- core/memory/kmalloc.c: the blocks cover the heap without gaps, and no two free ones are neighbours.
use bomboclaat_os.Base.{
  ℕ, ◌+◌, ◌%◌, ◌^◌, ◌≤◌, ◌<◌, ◌≡◌, ◌≢◌, refl, sym, ◌∙◌, ◌⊎◌, inl, inr, Bool, false, ◌||◌, List, [],
  ◌∷◌, ◌==◌, leb, arith,
}
use bomboclaat_os.Kmalloc.Blocks.{Block, Heap, block_size, alignment, heap_init}

-- Blocks at aligned addresses, one behind the other from `a` to `e`.
abbrev pub Tiles : ℕ → List Block → ℕ → Type 0
Tiles a [] e = a ≡ e
Tiles a (b ∷ bs) e = (b.addr ≡ a) × (a % 8 ≡ 0) × Tiles (a + block_size + b.size) bs e

-- The block is used, or what follows does not begin with a free one.
abbrev pub NotBothFree : Bool → List Block → Type 0
NotBothFree free [] = Unit
NotBothFree free (c ∷ cs) = (free ≡ false) ⊎ (c.free ≡ false)

abbrev pub IsJoined : List Block → Type 0
IsJoined [] = Unit
IsJoined (b ∷ bs) = NotBothFree b.free bs × IsJoined bs

pub record IsHeap (h : Heap) : Type 0 where
  pub tiles : Tiles h.heap_start h.blocks h.heap_end
  pub apart : IsJoined h.blocks
  pub aligned_start : h.heap_start % 8 ≡ 0
  pub start : 8 ≤ h.heap_start
  pub limit : h.heap_end < 2 ^ 64

-- A used block with its header at `a` and `n` bytes.
abbrev pub Used : ℕ → ℕ → List Block → Type 0
Used a n [] = ⊥
Used a n (b ∷ bs) = ((b.addr ≡ a) × (b.size ≡ n) × (b.free ≡ false)) ⊎ Used a n bs

pub Tiles-le : (a : ℕ) (bs : List Block) (e : ℕ) → Tiles a bs e → a ≤ e
Tiles-le a [] e t = omega arith
Tiles-le a (b ∷ bs) e (at, aligned, t) = omega (arith, Tiles-le (a + block_size + b.size) bs e t)

-- A used block lies between the ends.
pub Used-bounds :
    (a : ℕ) (bs : List Block) (e x n : ℕ)
    → Tiles a bs e
    → Used x n bs
    → (a ≤ x) × (x + block_size + n ≤ e)
Used-bounds a [] e x n t used = absurd used
Used-bounds a (b ∷ bs) e x n (at, aligned, t) (inl (h, k, f)) =
    let le = Tiles-le (a + block_size + b.size) bs e t in (omega arith, omega arith)
Used-bounds a (b ∷ bs) e x n (at, aligned, t) (inr used) =
    let (lo, hi) = Used-bounds (a + block_size + b.size) bs e x n t used in (omega arith, hi)

-- Two used blocks are the same one, or one ends before the other begins.
pub Used-apart :
    (a : ℕ) (bs : List Block) (e x n y k : ℕ)
    → Tiles a bs e
    → Used x n bs
    → Used y k bs
    → ((x ≡ y) × (n ≡ k)) ⊎ ((x + block_size + n ≤ y) ⊎ (y + block_size + k ≤ x))
Used-apart a [] e x n y k t used used' = absurd used
Used-apart a (b ∷ bs) e x n y k (at, aligned, t) (inl (h, s, f)) (inl (h', s', f')) =
    inl (sym h ∙ h', sym s ∙ s')
Used-apart a (b ∷ bs) e x n y k (at, aligned, t) (inl (h, s, f)) (inr used') =
    let (lo, hi) = Used-bounds (a + block_size + b.size) bs e y k t used' in inr (inl (omega arith))
Used-apart a (b ∷ bs) e x n y k (at, aligned, t) (inr used) (inl (h, s, f)) =
    let (lo, hi) = Used-bounds (a + block_size + b.size) bs e x n t used in inr (inr (omega arith))
Used-apart a (b ∷ bs) e x n y k (at, aligned, t) (inr used) (inr used') =
    Used-apart (a + block_size + b.size) bs e x n y k t used used'

-- A range of more than 32 bytes, below the last eight addresses, becomes a heap of one free block.
pub heap_init-IsHeap :
    (start size : ℕ) (h : Heap)
    → start ≢ 0
    → block_size + alignment < size
    → start + size < 2 ^ 64
    → IsHeap (heap_init start size h)
unfolding heap_init
heap_init-IsHeap start size h ne large fits =
    let go : ((start == 0) || leb size (block_size + alignment)) ≡ false = ground arith in
    rw go (record {
      tiles = (refl, omega arith, omega arith);
      apart = (tt, tt);
      aligned_start = omega arith;
      start = omega arith;
      limit = omega arith;
    })
