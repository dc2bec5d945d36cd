-- ===== src/Kmalloc/RoundTrip.antt =====
-- core/memory/kmalloc.c: _kfree of what _kmalloc returned gives back the blocks of before.
use bomboclaat_os.Base.{
  ℕ, ◌+◌, ◌%◌, ◌^◌, ◌≤◌, ◌<◌, ◌≡◌, ◌≢◌, refl, sym, ap, ◌∙◌, ◌⊎◌, inl, inr, Bool, true, false, ◌&&◌,
  Option, none, some, List, [], ◌∷◌, ◌==◌, leb, ltb, Bool-cases, subst, arith,
}
use bomboclaat_os.Kmalloc.Blocks.{
  Block, block_size, alignment, sub64, split_block, take_head, take_block, mark_free, join_from,
  join_blocks,
}
use bomboclaat_os.Kmalloc.Tiles.{Tiles, NotBothFree, IsJoined, Tiles-le, Used-bounds}
use bomboclaat_os.Kmalloc.Alloc.{Took, take_block-Took}
use bomboclaat_os.Kmalloc.Free.{join_from_apart, IsJoined-join_blocks}

-- Freeing the block at `x` of `bs'` gives `bs`.
pub record Restores (bs : List Block) (x : ℕ) (bs' : List Block) : Type 0 where
  pub marked : List Block
  pub marks : mark_free x bs' ≡ some marked
  pub joins_to : join_blocks marked ≡ bs
  pub front : (f : Bool) → NotBothFree f bs → NotBothFree f marked

abbrev pub TookBack : List Block → Option (ℕ × List Block) → Type 0
TookBack bs = elim [ none ↦ Unit | some (x, bs') ↦ Restores bs x bs' ]

whole_head-Restores :
    (b : Block) (bs : List Block)
    → IsJoined (b ∷ bs)
    → b.free ≡ true
    → Restores (b ∷ bs) b.addr (record b { free = false } ∷ bs)
unfolding mark_free
whole_head-Restores b bs apart free =
    let here : (b.addr == b.addr) ≡ true = ground arith in
    let same : ◌≡◌ {A = Block} (record b { free = true }) b =
      ap (λ f. record { addr = b.addr; size = b.size; free = f }) (sym free) in
    record {
      marked = record b { free = true } ∷ bs;
      marks = rw (here, mark_free) refl;
      joins_to = rw same (IsJoined-join_blocks (b ∷ bs) apart);
      front = λ f front. subst (λ g. (f ≡ false) ⊎ (g ≡ false)) free front;
    }

split_head-Restores :
    (size : ℕ) (b : Block) (bs : List Block) (c k : ℕ)
    → IsJoined (b ∷ bs)
    → b.free ≡ true
    → (b.addr + block_size + size) % 2 ^ 64 ≡ c
    → size + block_size + k ≡ b.size
    → b.size < 2 ^ 64
    → Restores (b ∷ bs) b.addr (
        record { addr = b.addr; size = size; free = false }
        ∷ record { addr = c; size = k; free = true }
        ∷ bs)
unfolding mark_free join_blocks join_from
split_head-Restores size b bs c k (alone, apart) free next sum limit =
    let here : (b.addr == b.addr) ≡ true = ground arith in
    let again : ((b.addr + block_size + size) % 2 ^ 64 == c) ≡ true = ground arith in
    let total : (size + block_size + k) % 2 ^ 64 ≡ b.size = omega arith in
    let same : ◌≡◌ {A = Block} (record { addr = b.addr; size = b.size; free = true }) b =
      ap (λ f. record { addr = b.addr; size = b.size; free = f }) (sym free) in
    record {
      marked =
          record { addr = b.addr; size = size; free = true }
          ∷ record { addr = c; size = k; free = true }
          ∷ bs;
      marks = rw (here, mark_free) refl;
      joins_to =
          rw (again, join_from, join_blocks)
            (rw total (rw same (IsJoined-join_blocks (b ∷ bs) (alone, apart))));
      front = λ f front. subst (λ g. (f ≡ false) ⊎ (g ≡ false)) free front;
    }

head-Restores :
    (size a : ℕ) (b : Block) (bs : List Block) (e : ℕ)
    → Tiles a (b ∷ bs) e
    → IsJoined (b ∷ bs)
    → 8 ≤ a
    → e < 2 ^ 64
    → b.free ≡ true
    → size ≤ b.size
    → Restores (b ∷ bs) b.addr (take_head (split_block b size bs))
unfolding split_block
head-Restores size a b bs e (at, aligned, t) apart low limit free fits =
    let le = Tiles-le (a + block_size + b.size) bs e t in
    elim (Bool-cases (ltb b.size ((size + block_size + alignment) % 2 ^ 64))) [
      | inl small ↦ rw small (whole_head-Restores b bs apart free)
      | inr large ↦
          let room : size + block_size + alignment ≤ b.size = ground arith in
          rw large (
            split_head-Restores size b bs ((b.addr + block_size + size) % 2 ^ 64)
              (sub64 (sub64 b.size size) block_size) apart free refl (omega arith) (omega arith))
    ]

tail-Restores :
    (b : Block) (bs : List Block) (x : ℕ) (bs' : List Block)
    → NotBothFree b.free bs
    → b.addr ≢ x
    → Restores bs x bs'
    → Restores (b ∷ bs) x (b ∷ bs')
unfolding mark_free join_blocks
tail-Restores b bs x bs' alone other u =
    let elsewhere : (b.addr == x) ≡ false = ground arith in
    record {
      marked = b ∷ u.marked;
      marks = rw (elsewhere, mark_free) (rw u.marks refl);
      joins_to =
          join_from_apart b u.marked (u.front b.free alone) ∙ ap (λ rest. b ∷ rest) u.joins_to;
      front = λ f front. front;
    }

pub take_block-TookBack :
    (size a : ℕ) (bs : List Block) (e : ℕ)
    → Tiles a bs e
    → IsJoined bs
    → 8 ≤ a
    → e < 2 ^ 64
    → size % 8 ≡ 0
    → TookBack bs (take_block size bs)
unfolding take_block
take_block-TookBack size a [] e t apart low limit mult = tt
take_block-TookBack size a (b ∷ bs) e (at, aligned, t) (alone, apart) low limit mult =
    let a' = a + block_size + b.size in
    let rest = take_block-TookBack size a' bs e t apart (omega arith) limit mult in
    let took = take_block-Took size a' bs e t apart (omega arith) limit mult in
    elim (Bool-cases (b.free && leb size b.size)) [
      | inl fits ↦
          rw (fits, take_block)
            (head-Restores size a b bs e (at, aligned, t) (alone, apart) low limit (ground arith)
              (ground arith))
      | inr not_here ↦ rw (not_here, take_block) (with_head (take_block size bs) took rest)
    ]
  where
    with_head :
        (o : Option (ℕ × List Block))
        → Took size (a + block_size + b.size) bs e o
        → TookBack bs o
        → TookBack (b ∷ bs) (elim o [ none ↦ none | some (x, bs') ↦ some (x, b ∷ bs') ])
    with_head none none_fits r = tt
    with_head (some (x, bs')) u r =
        let (lo, hi) = Used-bounds (a + block_size + b.size) bs' e x u.room u.tiles u.taken in
        tail-Restores b bs x bs' alone (omega arith) r
