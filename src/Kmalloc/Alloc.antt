-- ===== src/Kmalloc/Alloc.antt =====
-- core/memory/kmalloc.c: what _kmalloc does to the blocks.
use bomboclaat_os.Base.{
  ℕ, ◌+◌, ◌%◌, ◌^◌, ◌≤◌, ◌<◌, ◌≡◌, refl, sym, ◌∙◌, ◌⊎◌, inl, inr, Bool, true, false, ◌&&◌, Option,
  none, some, List, [], ◌∷◌, leb, ltb, Bool-cases, subst, false≢true, arith,
}
use bomboclaat_os.Kmalloc.Blocks.{
  Block, block_size, sub64, alignment, split_block, take_head, take_block,
}
use bomboclaat_os.Kmalloc.Tiles.{Tiles, NotBothFree, IsJoined, Used, Tiles-le, Used-bounds}

-- No free block has `size` bytes.
abbrev pub NoneFits : ℕ → List Block → Type 0
NoneFits size [] = Unit
NoneFits size (b ∷ bs) = ((b.free ≡ true) → b.size < size) × NoneFits size bs

-- `bs'` is `bs` with a block of at least `size` bytes at `x` that has become used.
pub record Taken (size a : ℕ) (bs : List Block) (e x : ℕ) (bs' : List Block) : Type 0 where
  pub room : ℕ
  pub enough : size ≤ room
  pub taken : Used x room bs'
  pub fresh : (n : ℕ) → Used x n bs → ⊥
  pub kept : (y n : ℕ) → Used y n bs → Used y n bs'
  pub no_other : (y n : ℕ) → Used y n bs' → ((y ≡ x) × (n ≡ room)) ⊎ Used y n bs
  pub tiles : Tiles a bs' e
  pub apart : IsJoined bs'
  pub front : (f : Bool) → NotBothFree f bs → NotBothFree f bs'

abbrev pub Took : (size a : ℕ) (bs : List Block) (e : ℕ) → Option (ℕ × List Block) → Type 0
Took size a bs e = elim [ none ↦ NoneFits size bs | some (x, bs') ↦ Taken size a bs e x bs' ]

-- A free head is at no used block's address.
free_head :
    (a : ℕ) (b : Block) (bs : List Block) (e n : ℕ)
    → Tiles a (b ∷ bs) e
    → b.free ≡ true
    → Used b.addr n (b ∷ bs)
    → ⊥
free_head a b bs e n (at, aligned, t) free (inl (h, k, f)) = false≢true (sym f ∙ free)
free_head a b bs e n (at, aligned, t) free (inr used) =
    let (lo, hi) = Used-bounds (a + block_size + b.size) bs e b.addr n t used in omega arith

-- Behind a used block anything may follow.
used_front : (bs : List Block) → NotBothFree false bs
used_front [] = tt
used_front (b ∷ bs) = inl refl

-- A head that was free and is not split.
whole_head-Taken :
    (size a : ℕ) (b : Block) (bs : List Block) (e : ℕ)
    → Tiles a (b ∷ bs) e
    → IsJoined (b ∷ bs)
    → b.free ≡ true
    → size ≤ b.size
    → Taken size a (b ∷ bs) e b.addr (record b { free = false } ∷ bs)
whole_head-Taken size a b bs e (at, aligned, t) (alone, apart) free fits = record {
  room = b.size;
  enough = fits;
  taken = inl (refl, refl, refl);
  fresh = λ n used. free_head a b bs e n (at, aligned, t) free used;
  kept = λ y n. elim [ inl (h, k, f) ↦ absurd (false≢true (sym f ∙ free)) | inr used ↦ inr used ];
  no_other = λ y n. elim [ inl (h, k, f) ↦ inl (sym h, sym k) | inr used ↦ inr (inr used) ];
  tiles = (at, aligned, t);
  apart = (used_front bs, apart);
  front = λ f front. inr refl;
}

-- A head that was free and is split, with the new block at `c`.
split_head-Taken :
    (size a : ℕ) (b : Block) (bs : List Block) (e c k : ℕ)
    → Tiles a (b ∷ bs) e
    → IsJoined (b ∷ bs)
    → b.free ≡ true
    → size % 8 ≡ 0
    → c ≡ a + block_size + size
    → k + block_size + size ≡ b.size
    → Taken size a (b ∷ bs) e b.addr (
        record { addr = b.addr; size = size; free = false }
        ∷ record { addr = c; size = k; free = true }
        ∷ bs)
split_head-Taken size a b bs e c k (at, aligned, t) (alone, apart) free mult here sum =
    let ends : a + block_size + b.size ≡ a + block_size + size + block_size + k = omega arith in
    let tail = subst (λ end. Tiles end bs e) ends t in
    record {
      room = size;
      enough = omega arith;
      taken = inl (refl, refl, refl);
      fresh = λ n used. free_head a b bs e n (at, aligned, t) free used;
      kept = λ y n. elim [
        | inl (h, k', f) ↦ absurd (false≢true (sym f ∙ free))
        | inr used ↦ inr (inr used)
      ];
      no_other = λ y n. elim [
        | inl (h, k', f) ↦ inl (sym h, sym k')
        | inr (inl (h, k', f)) ↦ absurd (false≢true (sym f))
        | inr (inr used) ↦ inr (inr used)
      ];
      tiles = (at, aligned, (here, omega arith, tail));
      apart = (inl refl, (subst (λ f. NotBothFree f bs) free alone, apart));
      front = λ f front. inr refl;
    }

head-Taken :
    (size a : ℕ) (b : Block) (bs : List Block) (e : ℕ)
    → Tiles a (b ∷ bs) e
    → IsJoined (b ∷ bs)
    → 8 ≤ a
    → e < 2 ^ 64
    → size % 8 ≡ 0
    → b.free ≡ true
    → size ≤ b.size
    → Taken size a (b ∷ bs) e b.addr (take_head (split_block b size bs))
unfolding split_block
head-Taken size a b bs e (at, aligned, t) apart low limit mult free fits =
    let le = Tiles-le (a + block_size + b.size) bs e t in
    elim (Bool-cases (ltb b.size ((size + block_size + alignment) % 2 ^ 64))) [
      | inl small ↦ rw small (whole_head-Taken size a b bs e (at, aligned, t) apart free fits)
      | inr large ↦
          let room : size + block_size + alignment ≤ b.size = ground arith in
          rw large (
            split_head-Taken size a b bs e ((b.addr + block_size + size) % 2 ^ 64)
              (sub64 (sub64 b.size size) block_size) (at, aligned, t) apart free mult (omega arith)
              (omega arith))
    ]

-- A block behind the head is taken.
tail-Taken :
    (size a : ℕ) (b : Block) (bs bs' : List Block) (e x : ℕ)
    → Tiles a (b ∷ bs) e
    → IsJoined (b ∷ bs)
    → Taken size (a + block_size + b.size) bs e x bs'
    → Taken size a (b ∷ bs) e x (b ∷ bs')
tail-Taken size a b bs bs' e x (at, aligned, t) (alone, apart) u =
    let (lo, hi) = Used-bounds (a + block_size + b.size) bs' e x u.room u.tiles u.taken in
    record {
      room = u.room;
      enough = u.enough;
      taken = inr u.taken;
      fresh = λ n. elim [ inl (h, k, f) ↦ omega arith | inr used ↦ u.fresh n used ];
      kept = λ y n. elim [ inl here ↦ inl here | inr used ↦ inr (u.kept y n used) ];
      no_other = λ y n. elim [
        | inl here ↦ inr (inl here)
        | inr used ↦ elim (u.no_other y n used) [ inl new ↦ inl new | inr old ↦ inr (inr old) ]
      ];
      tiles = (at, aligned, u.tiles);
      apart = (u.front b.free alone, u.apart);
      front = λ f front. front;
    }

pub take_block-Took :
    (size a : ℕ) (bs : List Block) (e : ℕ)
    → Tiles a bs e
    → IsJoined bs
    → 8 ≤ a
    → e < 2 ^ 64
    → size % 8 ≡ 0
    → Took size a bs e (take_block size bs)
unfolding take_block
take_block-Took size a [] e t apart low limit mult = tt
take_block-Took size a (b ∷ bs) e (at, aligned, t) (alone, apart) low limit mult =
    let rest =
      take_block-Took size (a + block_size + b.size) bs e t apart (omega arith) limit mult in
    elim (Bool-cases (b.free && leb size b.size)) [
      | inl fits ↦
          rw (fits, take_block)
            (head-Taken size a b bs e (at, aligned, t) (alone, apart) low limit mult (ground arith)
              (ground arith))
      | inr not_here ↦
          rw (not_here, take_block) (with_head (take_block size bs) rest (λ free. ground arith))
    ]
  where
    with_head :
        (o : Option (ℕ × List Block))
        → Took size (a + block_size + b.size) bs e o
        → ((b.free ≡ true) → b.size < size)
        → Took size a (b ∷ bs) e (elim o [ none ↦ none | some (x, bs') ↦ some (x, b ∷ bs') ])
    with_head none none_fits small = (small, none_fits)
    with_head (some (x, bs')) u small =
        tail-Taken size a b bs bs' e x (at, aligned, t) (alone, apart) u
