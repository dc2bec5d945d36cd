-- ===== src/Kmalloc/Free.antt =====
-- core/memory/kmalloc.c: what the loop of _kfree does to the blocks.
use bomboclaat_os.Base.{
  ℕ, ◌+◌, ◌%◌, ◌^◌, ◌<◌, ◌≡◌, ◌≢◌, refl, sym, ap, ◌∙◌, ◌⊎◌, inl, inr, Bool, true, false, Option,
  none, some, List, [], ◌∷◌, ◌==◌, Bool-cases, subst, false≢true, arith,
}
use bomboclaat_os.Kmalloc.Blocks.{
  Block, block_size, mark_free, joins, joined, join_from, join_blocks,
}
use bomboclaat_os.Kmalloc.Tiles.{Tiles, NotBothFree, IsJoined, Used, Tiles-le, Used-bounds}

-- `bs'` covers the same range and has the same used blocks.
pub record Merged (a : ℕ) (bs : List Block) (e : ℕ) (bs' : List Block) : Type 0 where
  pub tiles : Tiles a bs' e
  pub apart : IsJoined bs'
  pub kept : (y n : ℕ) → Used y n bs → Used y n bs'
  pub no_other : (y n : ℕ) → Used y n bs' → Used y n bs

joins_both : (b c : Block) → joins b c ≡ true → (b.free ≡ true) × (c.free ≡ true)
joins_both b c both = (ground arith, ground arith)

joins_apart :
    (b c : Block)
    → (b.addr + block_size + b.size) % 2 ^ 64 ≡ c.addr
    → joins b c ≡ false
    → (b.free ≡ false) ⊎ (c.free ≡ false)
joins_apart b c next apart = elim (Bool-cases b.free) [
  | inr used ↦ inl used
  | inl free ↦ inr (ground arith)
]

apart_joins : (b c : Block) → (b.free ≡ false) ⊎ (c.free ≡ false) → joins b c ≡ false
apart_joins b c (inl used) = rw used refl
apart_joins b c (inr used) = ground arith

-- The loop keeps whether the first block is free.
join_from_front :
    (f : Bool) (b : Block) (bs : List Block)
    → NotBothFree f (b ∷ bs)
    → NotBothFree f (join_from b bs)
unfolding join_from
join_from_front f b [] front = front
join_from_front f b (c ∷ cs) front = elim (Bool-cases (joins b c)) [
  | inl yes_join ↦ rw (yes_join, join_from) (join_from_front f (joined b c) cs front)
  | inr no_join ↦ rw (no_join, join_from) front
]

-- Two free neighbours become one block.
joined-Tiles :
    (a : ℕ) (b c : Block) (cs : List Block) (e : ℕ)
    → Tiles a (b ∷ c ∷ cs) e
    → e < 2 ^ 64
    → Tiles a (joined b c ∷ cs) e
joined-Tiles a b c cs e (at, aligned, (at', aligned', t)) limit =
    let le = Tiles-le (a + block_size + b.size + block_size + c.size) cs e t in
    let ends : a + block_size + b.size + block_size + c.size
        ≡ a + block_size + (b.size + block_size + c.size) % 2 ^ 64 =
      omega arith in
    (at, aligned, subst (λ end. Tiles end cs e) ends t)

pub join_from-Merged :
    (a : ℕ) (b : Block) (bs : List Block) (e : ℕ)
    → Tiles a (b ∷ bs) e
    → e < 2 ^ 64
    → Merged a (b ∷ bs) e (join_from b bs)
unfolding join_from
join_from-Merged a b [] e tiles limit = record {
  tiles = tiles;
  apart = (tt, tt);
  kept = λ y n used. used;
  no_other = λ y n used. used;
}
join_from-Merged a b (c ∷ cs) e (at, aligned, (at', aligned', t)) limit =
    let le = Tiles-le (a + block_size + b.size + block_size + c.size) cs e t in
    let behind = join_from-Merged (a + block_size + b.size) c cs e (at', aligned', t) limit in
    let whole =
      join_from-Merged a (joined b c) cs e
        (joined-Tiles a b c cs e (at, aligned, (at', aligned', t)) limit) limit in
    elim (Bool-cases (joins b c)) [
      | inl both ↦
          let (free, free') = joins_both b c both in
          rw (both, join_from)
            (record {
              tiles = whole.tiles;
              apart = whole.apart;
              kept = λ y n. elim [
                | inl (h, k, f) ↦ absurd (false≢true (sym f ∙ free))
                | inr (inl (h, k, f)) ↦ absurd (false≢true (sym f ∙ free'))
                | inr (inr used) ↦ whole.kept y n (inr used)
              ];
              no_other = λ y n used. elim (whole.no_other y n used) [
                | inl (h, k, f) ↦ absurd (false≢true (sym f ∙ free))
                | inr old ↦ inr (inr old)
              ];
            })
      | inr apart ↦
          rw (apart, join_from)
            (record {
              tiles = (at, aligned, behind.tiles);
              apart =
                  (join_from_front b.free c cs (joins_apart b c (omega arith) apart), behind.apart);
              kept = λ y n. elim [ inl here ↦ inl here | inr used ↦ inr (behind.kept y n used) ];
              no_other =
                  λ y n. elim [ inl here ↦ inl here | inr used ↦ inr (behind.no_other y n used) ];
            })
    ]

-- Where no two free blocks are neighbours, the loop changes nothing in front of what it joins.
pub join_from_apart :
    (b : Block) (bs : List Block) → NotBothFree b.free bs → join_from b bs ≡ b ∷ join_blocks bs
unfolding join_from join_blocks
join_from_apart b [] front = refl
join_from_apart b (c ∷ cs) front = rw (apart_joins b c front, join_from) refl

pub IsJoined-join_blocks : (bs : List Block) → IsJoined bs → join_blocks bs ≡ bs
unfolding join_blocks join_from
IsJoined-join_blocks [] apart = refl
IsJoined-join_blocks (b ∷ bs) (alone, apart) =
    join_from_apart b bs alone ∙ ap (λ rest. b ∷ rest) (IsJoined-join_blocks bs apart)

-- `bs'` is `bs` with the used block at `x` become free.
pub record Freed (a : ℕ) (bs : List Block) (e x : ℕ) (bs' : List Block) : Type 0 where
  pub tiles : Tiles a bs' e
  pub gone : (n : ℕ) → Used x n bs' → ⊥
  pub kept : (y n : ℕ) → y ≢ x → Used y n bs → Used y n bs'
  pub no_other : (y n : ℕ) → Used y n bs' → Used y n bs

abbrev pub MarkedFree : (a : ℕ) (bs : List Block) (e x : ℕ) → Option (List Block) → Type 0
MarkedFree a bs e x = elim [ none ↦ ⊥ | some bs' ↦ Freed a bs e x bs' ]

-- The head becomes free.
head-Freed :
    (a : ℕ) (b : Block) (bs : List Block) (e x : ℕ)
    → Tiles a (b ∷ bs) e
    → b.addr ≡ x
    → Freed a (b ∷ bs) e x (record b { free = true } ∷ bs)
head-Freed a b bs e x (at, aligned, t) here = record {
  tiles = (at, aligned, t);
  gone = λ n. elim [
    | inl (h, k, f) ↦ false≢true (sym f)
    | inr used ↦ let (lo, hi) = Used-bounds (a + block_size + b.size) bs e x n t used in omega arith
  ];
  kept = λ y n other. elim [ inl (h, k, f) ↦ absurd (other (sym h ∙ here)) | inr used ↦ inr used ];
  no_other = λ y n. elim [ inl (h, k, f) ↦ absurd (false≢true (sym f)) | inr used ↦ inr used ];
}

-- A block behind the head becomes free.
tail-Freed :
    (a : ℕ) (b : Block) (bs : List Block) (e x : ℕ) (bs' : List Block)
    → Tiles a (b ∷ bs) e
    → b.addr ≢ x
    → Freed (a + block_size + b.size) bs e x bs'
    → Freed a (b ∷ bs) e x (b ∷ bs')
tail-Freed a b bs e x bs' (at, aligned, t) other u = record {
  tiles = (at, aligned, u.tiles);
  gone = λ n. elim [ inl (h, k, f) ↦ other h | inr used ↦ u.gone n used ];
  kept = λ y n ne. elim [ inl here ↦ inl here | inr used ↦ inr (u.kept y n ne used) ];
  no_other = λ y n. elim [ inl here ↦ inl here | inr used ↦ inr (u.no_other y n used) ];
}

pub mark_free-MarkedFree :
    (a : ℕ) (bs : List Block) (e x n : ℕ)
    → Tiles a bs e
    → Used x n bs
    → MarkedFree a bs e x (mark_free x bs)
unfolding mark_free
mark_free-MarkedFree a [] e x n t used = used
mark_free-MarkedFree a (b ∷ bs) e x n (at, aligned, t) used = elim (Bool-cases (b.addr == x)) [
  | inl here ↦ rw (here, mark_free) (head-Freed a b bs e x (at, aligned, t) (ground arith))
  | inr elsewhere ↦
      let other : b.addr ≢ x = ground arith in
      rw (elsewhere, mark_free)
        (with_head (mark_free x bs) other
          (mark_free-MarkedFree (a + block_size + b.size) bs e x n t (behind other used)))
]
  where
    behind :
        b.addr ≢ x → ((b.addr ≡ x) × (b.size ≡ n) × (b.free ≡ false)) ⊎ Used x n bs → Used x n bs
    behind other (inl (h, k, f)) = absurd (other h)
    behind other (inr u) = u

    with_head :
        (o : Option (List Block))
        → b.addr ≢ x
        → MarkedFree (a + block_size + b.size) bs e x o
        → MarkedFree a (b ∷ bs) e x (elim o [ none ↦ none | some bs' ↦ some (b ∷ bs') ])
    with_head none other gone = gone
    with_head (some bs') other u = tail-Freed a b bs e x bs' (at, aligned, t) other u
