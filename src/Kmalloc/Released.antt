-- ===== src/Kmalloc/Released.antt =====
-- core/memory/kmalloc.c: what _kfree does to the heap.
use bomboclaat_os.Base.{
  ℕ, ◌+◌, ◌/◌, ◌^◌, ◌≤◌, ◌<◌, ◌≡◌, ◌≢◌, refl, ap, ◌∙◌, ◌⊎◌, inl, inr, Bool, false, not, ◌&&◌,
  Option, none, some, List, [], ◌∷◌, ◌==◌, leb, if◌then◌else◌, Bool-cases, arith,
}
use bomboclaat_os.Kmalloc.Blocks.{Block, Heap, block_size, sub64, mark_free, join_blocks}
use bomboclaat_os.Kmalloc.Chunk.{
  align_magic, first_addr, find_next, free_target, release_block, raw_kfree,
}
use bomboclaat_os.Kmalloc.Tiles.{Tiles, IsHeap, Used, Tiles-le, Used-bounds}
use bomboclaat_os.Kmalloc.Free.{join_from-Merged, Freed, MarkedFree, mark_free-MarkedFree}

-- No address of the heap has the mark of an aligned block in its upper half.
abbrev pub NoMagic : Heap → Type 0
NoMagic h = (h.heap_end / 2 ^ 32 < align_magic) ⊎ (align_magic < h.heap_start / 2 ^ 32)

abbrev pub FoundNext : (a e : ℕ) → Option ℕ → Type 0
FoundNext a e = elim [ none ↦ ⊥ | some next ↦ (next ≡ 0) ⊎ ((a ≤ next) × (next ≤ e)) ]

find_next-FoundNext :
    (a : ℕ) (bs : List Block) (e x n : ℕ)
    → Tiles a bs e
    → Used x n bs
    → FoundNext a e (find_next x bs)
unfolding find_next
find_next-FoundNext a [] e x n t used = used
find_next-FoundNext a (b ∷ bs) e x n (at, aligned, t) used = elim (Bool-cases (b.addr == x)) [
  | inl here ↦ rw (here, find_next) (next_of bs t)
  | inr elsewhere ↦
      let other : b.addr ≢ x = ground arith in
      rw (elsewhere, find_next)
        (wider (find_next x bs)
          (find_next-FoundNext (a + block_size + b.size) bs e x n t (behind other used)))
]
  where
    next_of :
        (cs : List Block)
        → Tiles (a + block_size + b.size) cs e
        → FoundNext a e (some (first_addr cs))
    next_of [] u = inl refl
    next_of (c ∷ cs) (at', aligned', u) =
        let le = Tiles-le (a + block_size + b.size + block_size + c.size) cs e u in
        inr (omega arith, omega arith)

    behind :
        b.addr ≢ x → ((b.addr ≡ x) × (b.size ≡ n) × (b.free ≡ false)) ⊎ Used x n bs → Used x n bs
    behind other (inl (h, k, f)) = absurd (other h)
    behind other (inr u) = u

    wider : (o : Option ℕ) → FoundNext (a + block_size + b.size) e o → FoundNext a e o
    wider none f = f
    wider (some next) (inl null) = inl null
    wider (some next) (inr (lo, hi)) = inr (omega arith, hi)

-- `h'` is `h` with the used block at `x` given back.
pub record Releases (h : Heap) (x : ℕ) (h' : Heap) : Type 0 where
  pub gone : (n : ℕ) → Used x n h'.blocks → ⊥
  pub kept : (y n : ℕ) → y ≢ x → Used y n h.blocks → Used y n h'.blocks
  pub no_other : (y n : ℕ) → Used y n h'.blocks → Used y n h.blocks
  pub well : IsHeap h'
  pub only : h' ≡ record h { blocks = h'.blocks }

abbrev pub Released : Heap → ℕ → Option Heap → Type 0
Released h x = elim [ none ↦ ⊥ | some h' ↦ Releases h x h' ]

join_blocks-Releases :
    (h : Heap) (x : ℕ) (bs : List Block)
    → IsHeap h
    → Freed h.heap_start h.blocks h.heap_end x bs
    → Releases h x (record h { blocks = join_blocks bs })
unfolding join_blocks
join_blocks-Releases h x [] w u = record {
  gone = u.gone;
  kept = u.kept;
  no_other = u.no_other;
  well = record {
    tiles = u.tiles;
    apart = tt;
    aligned_start = w.aligned_start;
    start = w.start;
    limit = w.limit;
  };
  only = refl;
}
join_blocks-Releases h x (b ∷ bs) w u =
    let m = join_from-Merged h.heap_start b bs h.heap_end u.tiles w.limit in
    record {
      gone = λ n used. u.gone n (m.no_other x n used);
      kept = λ y n ne used. m.kept y n (u.kept y n ne used);
      no_other = λ y n used. u.no_other y n (m.no_other y n used);
      well = record {
        tiles = m.tiles;
        apart = m.apart;
        aligned_start = w.aligned_start;
        start = w.start;
        limit = w.limit;
      };
      only = refl;
    }

-- Without the mark the pointer itself is freed.
pub free_target_plain :
    (raw p next : ℕ) (h : Heap)
    → NoMagic h
    → (next ≡ 0) ⊎ ((h.heap_start ≤ next) × (next ≤ h.heap_end))
    → free_target raw p next h ≡ p
free_target_plain raw p next h none_marked at =
    let plain : (next / 2 ^ 32 == align_magic) ≡ false = unmarked next h none_marked at in
    rw plain (
      ap (λ c. if c then raw else p)
        (shut (not (h.heap_start == 0)) (leb h.heap_start (sub64 p 12))))
  where
    shut : (a b : Bool) → (a && (b && false)) ≡ false
    shut a b = ground arith

    unmarked :
        (next : ℕ) (h : Heap)
        → NoMagic h
        → (next ≡ 0) ⊎ ((h.heap_start ≤ next) × (next ≤ h.heap_end))
        → (next / 2 ^ 32 == align_magic) ≡ false
    unmarked next h (inl low) (inl null) = ground arith
    unmarked next h (inr high) (inl null) = ground arith
    unmarked next h (inl low) (inr (lo, hi)) = ground arith
    unmarked next h (inr high) (inr (lo, hi)) = ground arith

-- _kfree of a used block frees this block.
pub raw_kfree_plain :
    (raw x n : ℕ) (h : Heap)
    → IsHeap h
    → NoMagic h
    → Used x n h.blocks
    → raw_kfree raw (x + block_size) h ≡ release_block x h
unfolding raw_kfree
raw_kfree_plain raw x n h w none_marked used =
    let nonzero : (x + block_size == 0) ≡ false = ground arith in
    let (lo, hi) = Used-bounds h.heap_start h.blocks h.heap_end x n w.tiles used in
    let limit = w.limit in
    let back : sub64 (x + block_size) block_size ≡ x = omega arith in
    rw (nonzero, back)
      (found (find_next x h.blocks)
        (find_next-FoundNext h.heap_start h.blocks h.heap_end x n w.tiles used) back)
  where
    found :
        (o : Option ℕ)
        → FoundNext h.heap_start h.heap_end o
        → sub64 (x + block_size) block_size ≡ x
        → elim o [
          | none ↦ none
          | some next ↦ release_block (sub64 (free_target raw (x + block_size) next h) block_size) h
        ]
          ≡ release_block x h
    found none gone back = absurd gone
    found (some next) at back =
        ap (λ p. release_block (sub64 p block_size) h)
          (free_target_plain raw (x + block_size) next h none_marked at)
        ∙ ap (λ a. release_block a h) back

-- _kfree of the address behind the header of a used block, whatever the padding of that header holds,
-- makes this block free, keeps every other used block, makes no block used, changes no byte of the
-- chunks, and keeps the heap well formed, without neighbours that are both free; on condition that no
-- address of the heap has 0xDEADBEEF in its upper half.
pub raw_kfree-Released :
    (raw x n : ℕ) (h : Heap)
    → IsHeap h
    → NoMagic h
    → Used x n h.blocks
    → Released h x (raw_kfree raw (x + block_size) h)
raw_kfree-Released raw x n h w none_marked used =
    rw (raw_kfree_plain raw x n h w none_marked used) (
      freed (mark_free x h.blocks)
        (mark_free-MarkedFree h.heap_start h.blocks h.heap_end x n w.tiles used))
  where
    freed :
        (o : Option (List Block))
        → MarkedFree h.heap_start h.blocks h.heap_end x o
        → Released h x
            (elim o [ none ↦ none | some bs ↦ some (record h { blocks = join_blocks bs }) ])
    freed none gone = gone
    freed (some bs) u = join_blocks-Releases h x bs w u
