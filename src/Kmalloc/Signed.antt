-- ===== src/Kmalloc/Signed.antt =====
-- core/memory/kmalloc.c: what kmalloc leaves in a chunk, and kfree of it.
use bomboclaat_os.Base.{
  ℕ, ◌+◌, ◌-◌, ◌%◌, ◌^◌, ◌≤◌, ◌<◌, ◌≡◌, sym, ap, ◌∙◌, inl, inr, Option, none, some, subst, arith,
}
use bomboclaat_os.Memtools.{Mem, memset}
use bomboclaat_os.Memtools.Compare.{fill_lem}
use bomboclaat_os.Kmalloc.Blocks.{Heap, block_size, align_up, raw_kmalloc}
use bomboclaat_os.Kmalloc.Chunk.{
  chunk_size, kmalloc_sign, store_le, read_le, read_bytes, store_bytes, fill_chunk, kmalloc,
}
use bomboclaat_os.Kmalloc.Tiles.{IsHeap}
use bomboclaat_os.Kmalloc.Alloc.{NoneFits}
use bomboclaat_os.Kmalloc.Served.{Serves, Served, raw_kmalloc-Served}
use bomboclaat_os.Kmalloc.Bytes.{
  Outside, store_bytes_miss, read_bytes-store_bytes, read_bytes_same, read_le_same, store_le_miss,
  read_le-store_le, low_bytes_word,
}

-- The chunk of `size` bytes whose header is at `c`.
pub record IsChunk (c size : ℕ) (mem : Mem) : Type 0 where
  pub sign : read_bytes 16 (c + 8) mem ≡ kmalloc_sign
  pub length : read_le 8 c mem ≡ size

pub memset_miss :
    (p byte size : ℕ) (mem : Mem) (q : ℕ) → Outside p size q → memset p byte size mem q ≡ mem q
unfolding memset
memset_miss p byte size mem q out = fill_lem (size % 2 ^ 32) p (byte % 256) mem q ∙ ground arith

pub fill_chunk_sized :
    (c size : ℕ) (mem : Mem)
    → c + chunk_size + size < 2 ^ 64
    → IsChunk c size (fill_chunk c size mem)
fill_chunk_sized c size mem fits =
    let at : (c + chunk_size) % 2 ^ 64 ≡ c + chunk_size = omega arith in
    let sized = store_le 8 c size mem in
    let signed = store_bytes kmalloc_sign (c + 8) sized in
    let filled : (q : ℕ) → q < c + chunk_size → fill_chunk c size mem q ≡ signed q =
      λ q lt. memset_miss ((c + chunk_size) % 2 ^ 64) 0 size signed q (inl (omega arith)) in
    record {
      sign =
          read_bytes_same 16 (c + 8) (fill_chunk c size mem) signed
            (λ q lo hi. filled q (omega arith))
          ∙ read_bytes-store_bytes kmalloc_sign (c + 8) sized;
      length =
          read_le_same 8 c (fill_chunk c size mem) sized (λ q lo hi.
            filled q (omega arith)
            ∙ store_bytes_miss kmalloc_sign (c + 8) sized q (inl (omega arith)))
          ∙ read_le-store_le 8 c size mem
          ∙ low_bytes_word size (omega arith);
    }

fill_chunk_zero :
    (c size : ℕ) (mem : Mem) (q : ℕ)
    → c + chunk_size + size < 2 ^ 64
    → size < 2 ^ 32
    → c + chunk_size ≤ q
    → q < c + chunk_size + size
    → fill_chunk c size mem q ≡ 0
unfolding memset
fill_chunk_zero c size mem q fits small lo hi =
    fill_lem (size % 2 ^ 32) ((c + chunk_size) % 2 ^ 64) 0
      (store_bytes kmalloc_sign (c + 8) (store_le 8 c size mem)) q
    ∙ ground arith

fill_chunk_miss :
    (c size : ℕ) (mem : Mem) (q : ℕ)
    → c + chunk_size + size < 2 ^ 64
    → Outside c (chunk_size + size) q
    → fill_chunk c size mem q ≡ mem q
fill_chunk_miss c size mem q fits out =
    memset_miss ((c + chunk_size) % 2 ^ 64) 0 size
      (store_bytes kmalloc_sign (c + 8) (store_le 8 c size mem)) q
      (part ((c + chunk_size) % 2 ^ 64) size (omega arith) (omega arith) out)
    ∙ store_bytes_miss kmalloc_sign (c + 8) (store_le 8 c size mem) q
        (part (c + 8) 16 (omega arith) (omega arith) out)
    ∙ store_le_miss 8 c size mem q (part c 8 (omega arith) (omega arith) out)
  where
    part :
        (p n : ℕ)
        → c ≤ p
        → p + n ≤ c + (chunk_size + size)
        → Outside c (chunk_size + size) q
        → Outside p n q
    part p n lo hi (inl lt) = inl (omega arith)
    part p n lo hi (inr le) = inr (omega arith)

pub IsHeap-mem : (h : Heap) (mem : Mem) → IsHeap h → IsHeap (record h { mem = mem })
IsHeap-mem h mem w = record {
  tiles = w.tiles;
  apart = w.apart;
  aligned_start = w.aligned_start;
  start = w.start;
  limit = w.limit;
}

-- A chunk of `size` zero bytes at `p`, in a block that has become used.
pub record Allots (size : ℕ) (h : Heap) (p : ℕ) (h' : Heap) : Type 0 where
  pub block : ℕ
  pub at : p ≡ block + block_size + chunk_size
  pub serves : Serves (chunk_size + size) h block (record h' { mem = h.mem })
  pub well : IsHeap h'
  pub chunk : IsChunk (block + block_size) size h'.mem
  pub zeroed : size < 2 ^ 32 → (q : ℕ) → p ≤ q → q < p + size → h'.mem q ≡ 0
  pub others : (q : ℕ) → Outside (block + block_size) (chunk_size + size) q → h'.mem q ≡ h.mem q

abbrev pub Allotted : ℕ → Heap → Option (ℕ × Heap) → Type 0
Allotted size h = elim [
  | none ↦ NoneFits (align_up (chunk_size + size)) h.blocks
  | some (p, h') ↦ Allots size h p h'
]

served_Allots :
    (size : ℕ) (h : Heap) (x : ℕ) (h' : Heap) (header : ℕ)
    → IsHeap h
    → chunk_size + size ≤ 2 ^ 64 - 8
    → header ≡ x + block_size
    → Serves (chunk_size + size) h x h'
    → Allots size h
        ((header + chunk_size) % 2 ^ 64)
        (record h' { mem = fill_chunk header size h'.mem })
served_Allots size h x h' header w fits here s =
    let (lo, hi) = s.inside in
    let limit = w.limit in
    let enough = s.enough in
    let room : header + chunk_size + size < 2 ^ 64 = omega arith in
    let mem' = fill_chunk header size h'.mem in
    record {
      block = x;
      at = omega arith;
      serves = record {
        room = s.room;
        enough = s.enough;
        aligned = s.aligned;
        taken = s.taken;
        inside = s.inside;
        fresh = s.fresh;
        kept = s.kept;
        no_other = s.no_other;
        well = IsHeap-mem h' h.mem s.well;
        only = ap (λ (k : Heap). record k { mem = h.mem }) s.only;
      };
      well = IsHeap-mem h' mem' s.well;
      chunk = subst (λ c. IsChunk c size mem') here (fill_chunk_sized header size h'.mem room);
      zeroed = λ small q lo hi.
          fill_chunk_zero header size h'.mem q room small (omega arith) (omega arith);
      others = λ q out.
          fill_chunk_miss header size h'.mem q room
            (subst (λ c. Outside c (chunk_size + size) q) (sym here) out)
          ∙ ap (λ (k : Heap). k.mem q) s.only;
    }

-- kmalloc of a size whose sum with the chunk's header fits returns null only if no free block has
-- room for both, rounded up to a multiple of 8; else a chunk with the header that bears the size and
-- the signature, in a block that was free and has become used, apart from every used block. Below
-- 4 GB all its bytes are zero. No byte outside of the header and the chunk changes, and the heap stays
-- well formed.
pub kmalloc-Allotted :
    (size : ℕ) (h : Heap)
    → IsHeap h
    → chunk_size + size ≤ 2 ^ 64 - 8
    → Allotted size h (kmalloc size h)
unfolding kmalloc
kmalloc-Allotted size h w fits =
    let at : (chunk_size + size) % 2 ^ 64 ≡ chunk_size + size = omega arith in
    rw (at, kmalloc)
      (allot (raw_kmalloc (chunk_size + size) h)
        (raw_kmalloc-Served (chunk_size + size) h w (omega arith) fits))
  where
    allot :
        (o : Option (ℕ × Heap))
        → Served (chunk_size + size) h o
        → Allotted size h (elim o [
          | none ↦ none
          | some (header, h') ↦
              some
                ((header + chunk_size) % 2 ^ 64, record h' { mem = fill_chunk header size h'.mem })
        ])
    allot none none_fits = none_fits
    allot (some (header, h')) (x, here, s) = served_Allots size h x h' header w fits here s
