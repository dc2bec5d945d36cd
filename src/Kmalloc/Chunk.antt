-- ===== src/Kmalloc/Chunk.antt =====
-- core/memory/kmalloc.c: kmalloc, kfree, kptrsize, and _kfree.
use bomboclaat_os.Base.{
  ◌-◌, bit_and, ℕ, zero, suc, ◌+◌, ◌*◌, ◌/◌, ◌%◌, ◌^◌, true, false, not, ◌&&◌, Option, none, some,
  List, [], ◌∷◌, ◌==◌, ltb, leb, if◌then◌else◌,
}
use bomboclaat_os.Base.Int.{ℤ, pos, negsuc}
use bomboclaat_os.Memtools.{Mem, store_byte, memset}
use bomboclaat_os.Strings.{strcmp}
use bomboclaat_os.Kmalloc.Blocks.{
  Block, Heap, block_size, alignment, sub64, raw_kmalloc, mark_free, join_blocks,
}

-- The `count` low bytes of a value, the lowest first.
unfoldable pub store_le : ℕ → ℕ → ℕ → Mem → Mem
store_le zero p val mem = mem
store_le (suc count) p val mem = store_le count (p + 1) (val / 256) (store_byte p (val % 256) mem)

unfoldable pub read_le : ℕ → ℕ → Mem → ℕ
read_le zero p mem = 0
read_le (suc count) p mem = mem p + 256 * read_le count (p + 1) mem

unfoldable pub read_bytes : ℕ → ℕ → Mem → List ℕ
read_bytes zero p mem = []
read_bytes (suc count) p mem = mem p ∷ read_bytes count (p + 1) mem

-- memcpy from a constant.
unfoldable pub store_bytes : List ℕ → ℕ → Mem → Mem
store_bytes [] p mem = mem
store_bytes (c ∷ cs) p mem = store_bytes cs (p + 1) (store_byte p c mem)

-- "BetterCallSaul!" and its terminator.
abbrev pub kmalloc_sign : List ℕ
kmalloc_sign =
    66 ∷ 101 ∷ 116 ∷ 116 ∷ 101 ∷ 114 ∷ 67 ∷ 97 ∷ 108 ∷ 108 ∷ 83 ∷ 97 ∷ 117 ∷ 108 ∷ 33 ∷ 0 ∷ []

-- `sizeof(chunk_header_t)`: the size, and the 16 bytes of `sign`.
abbrev pub chunk_size : ℕ
chunk_size = 24

abbrev pub align_magic : ℕ
align_magic = 0xDEADBEEF

-- The header in front of `ptr`, and the bytes that follow it.
abbrev pub fill_chunk : (header size : ℕ) → Mem → Mem
fill_chunk header size mem =
    memset ((header + chunk_size) % 2 ^ 64) 0 size
      (store_bytes kmalloc_sign (header + 8) (store_le 8 header size mem))

unfoldable pub kmalloc : ℕ → Heap → Option (ℕ × Heap)
kmalloc size h = elim (raw_kmalloc ((chunk_size + size) % 2 ^ 64) h) [
  | none ↦ none
  | some (header, h') ↦
      some ((header + chunk_size) % 2 ^ 64, record h' { mem = fill_chunk header size h'.mem })
]

-- A null pointer at the end.
abbrev pub first_addr : List Block → ℕ
first_addr [] = 0
first_addr (b ∷ bs) = b.addr

-- What `next` holds in the block at `a`.
unfoldable pub find_next : ℕ → List Block → Option ℕ
find_next a [] = none
find_next a (b ∷ bs) = elim (b.addr == a) [ true ↦ some (first_addr bs) | false ↦ find_next a bs ]

-- The pointer that _kfree goes on with. `raw` is what the eight bytes before `p` hold: `free` and the
-- padding behind it. The four bytes before those are the upper half of `next`.
abbrev pub free_target : (raw p next : ℕ) → Heap → ℕ
free_target raw p next h =
    if not (h.heap_start == 0)
      && (leb h.heap_start (sub64 p 12)
          && ((next / 2 ^ 32 == align_magic) && (leb h.heap_start raw && ltb raw h.heap_end)))
    then raw
    else p

-- `block->free = 1` and the loop behind it.
abbrev pub release_block : ℕ → Heap → Option Heap
release_block a h = elim (mark_free a h.blocks) [
  | none ↦ none
  | some bs ↦ some (record h { blocks = join_blocks bs })
]

-- _kfree. `none`: no block's header is before the pointer.
unfoldable pub raw_kfree : (raw p : ℕ) → Heap → Option Heap
raw_kfree raw p h = if p == 0 then some h else elim (find_next (sub64 p block_size) h.blocks) [
  | none ↦ none
  | some next ↦ release_block (sub64 (free_target raw p next h) block_size) h
]

-- `strcmp(header->sign, kmalloc_sign) != 0` is refused.
abbrev pub check_sign : Option ℤ → Option Heap → Heap → Option Heap
check_sign (some (pos zero)) freed h = freed
check_sign (some (pos (suc n))) freed h = some h
check_sign (some (negsuc n)) freed h = some h
check_sign none freed h = none

unfoldable pub kfree : (raw ptr : ℕ) → Heap → Option Heap
kfree raw ptr h =
    if ptr == 0
    then some h
    else let header = sub64 ptr chunk_size in
      check_sign (strcmp (read_bytes 16 (header + 8) h.mem) kmalloc_sign) (raw_kfree raw header h) h

unfoldable pub kptrsize : ℕ → Heap → ℕ
kptrsize ptr h = if ptr == 0 then 0 else read_le 8 (sub64 ptr chunk_size) h.mem

-- `ALIGN_UP(x, a)` for any `a`.
abbrev align_to : ℕ → ℕ → ℕ
align_to x a = bit_and ((x + sub64 a 1) % 2 ^ 64) (2 ^ 64 - 1 - sub64 a 1)

-- The mark, and the pointer that kmalloc returned, in front of `aligned`.
abbrev mark_aligned : (raw aligned : ℕ) → Mem → Mem
mark_aligned raw aligned mem =
    store_le 8 (sub64 aligned 8) raw (store_le 4 (sub64 aligned 12) align_magic mem)

unfoldable pub kmalloc_aligned : (size align : ℕ) → Heap → Option (ℕ × Heap)
unfolding kmalloc
kmalloc_aligned size align h =
    if size == 0
    then none
    else if leb align alignment
    then kmalloc size h
    else elim (kmalloc ((size + (align + 12)) % 2 ^ 64) h) [
      | none ↦ none
      | some (raw, h') ↦
          let aligned = align_to (raw + 12) align in
          some (aligned, record h' { mem = mark_aligned raw aligned h'.mem })
    ]
