-- ===== src/Kmalloc/Blocks.antt =====
-- core/memory/kmalloc.c: heap_init, split_block, and the loops of _kmalloc and _kfree over the blocks.
use bomboclaat_os.Base.{
  ℕ, ◌+◌, ◌-◌, ◌*◌, ◌/◌, ◌%◌, ◌^◌, Bool, true, false, ◌&&◌, ◌||◌, Option, none, some, List, [], ◌∷◌,
  ◌==◌, ltb, leb, if◌then◌else◌,
}
use bomboclaat_os.Memtools.{Mem}

-- kmem_block_t, at `addr`; `next` is the following element.
pub record Block : Type 0 where
  pub addr : ℕ
  pub size : ℕ
  pub free : Bool

pub record Heap : Type 0 where
  pub blocks : List Block
  pub heap_start : ℕ
  pub heap_end : ℕ
  pub mem : Mem

-- `sizeof(kmem_block_t)`
abbrev pub block_size : ℕ
block_size = 24

abbrev pub alignment : ℕ
alignment = 8

-- `ALIGN_UP(x, ALIGNMENT)`
abbrev pub align_up : ℕ → ℕ
align_up x = (x + 7) % 2 ^ 64 / 8 * 8

-- `a - b` on 64 bits.
abbrev pub sub64 : ℕ → ℕ → ℕ
sub64 a b = (a + (2 ^ 64 - b)) % 2 ^ 64

unfoldable pub heap_init : (start size : ℕ) → Heap → Heap
heap_init start size h =
    let s = align_up start in
    let e = (start + size) % 2 ^ 64 in
    if (start == 0) || leb size (block_size + alignment) then h else record h {
      blocks = record { addr = s; size = sub64 (sub64 e s) block_size; free = true } ∷ [];
      heap_start = s;
      heap_end = e;
    }

-- The block and, if there is room, the new one behind it.
unfoldable pub split_block : Block → ℕ → List Block → List Block
split_block b size rest =
    if ltb b.size ((size + block_size + alignment) % 2 ^ 64)
    then b ∷ rest
    else record b { size = size }
      ∷ record {
        addr = (b.addr + block_size + size) % 2 ^ 64;
        size = sub64 (sub64 b.size size) block_size;
        free = true;
      }
      ∷ rest

-- `cur->free = 0` at the head.
abbrev pub take_head : List Block → List Block
take_head [] = []
take_head (b ∷ bs) = record b { free = false } ∷ bs

-- The loop of _kmalloc: the address of the header that is taken.
unfoldable pub take_block : ℕ → List Block → Option (ℕ × List Block)
unfolding split_block
take_block size [] = none
take_block size (b ∷ bs) = elim (b.free && leb size b.size) [
  | true ↦ some (b.addr, take_head (split_block b size bs))
  | false ↦ elim (take_block size bs) [ none ↦ none | some (a, bs') ↦ some (a, b ∷ bs') ]
]

-- _kmalloc. `none` is a null pointer.
unfoldable pub raw_kmalloc : ℕ → Heap → Option (ℕ × Heap)
unfolding take_block
raw_kmalloc size h = if size == 0 then none else elim (take_block (align_up size) h.blocks) [
  | none ↦ none
  | some (a, bs) ↦ some ((a + block_size) % 2 ^ 64, record h { blocks = bs })
]

-- `block->free = 1`; `none` if no block is there.
unfoldable pub mark_free : ℕ → List Block → Option (List Block)
mark_free a [] = none
mark_free a (b ∷ bs) = elim (b.addr == a) [
  | true ↦ some (record b { free = true } ∷ bs)
  | false ↦ elim (mark_free a bs) [ none ↦ none | some bs' ↦ some (b ∷ bs') ]
]

-- The test of the loop of _kfree: both are free, and the one begins where the other ends.
abbrev pub joins : Block → Block → Bool
joins b c = b.free && (c.free && ((b.addr + block_size + b.size) % 2 ^ 64 == c.addr))

abbrev pub joined : Block → Block → Block
joined b c = record b { size = (b.size + block_size + c.size) % 2 ^ 64 }

-- The loop of _kfree from `cur` on, with the blocks behind it.
unfoldable pub join_from : Block → List Block → List Block
join_from cur [] = cur ∷ []
join_from cur (c ∷ cs) = elim (joins cur c) [
  | true ↦ join_from (joined cur c) cs
  | false ↦ cur ∷ join_from c cs
]

unfoldable pub join_blocks : List Block → List Block
unfolding join_from
join_blocks [] = []
join_blocks (b ∷ bs) = join_from b bs
