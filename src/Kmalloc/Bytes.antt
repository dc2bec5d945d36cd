-- ===== src/Kmalloc/Bytes.antt =====
-- Words and bytes in memory that core/memory/kmalloc.c and the compiler's stores leave there.
use bomboclaat_os.Base.{
  ℕ, zero, suc, ◌+◌, ◌*◌, ◌/◌, ◌%◌, ◌^◌, ◌≤◌, ◌<◌, ◌≡◌, refl, ap₂, ◌∙◌, ◌⊎◌, inl, inr, List, [],
  ◌∷◌, length, arith,
}
use bomboclaat_os.Memtools.{Mem, store_byte}
use bomboclaat_os.Memtools.Move.{store_byte_hit, store_byte_miss}
use bomboclaat_os.Kmalloc.Chunk.{store_le, read_le, read_bytes, store_bytes}

-- The two memories agree on the `n` bytes at `p`.
abbrev pub Agree : ℕ → ℕ → Mem → Mem → Type 0
Agree p n mem mem' = (q : ℕ) → p ≤ q → q < p + n → mem q ≡ mem' q

-- Outside of the `n` bytes at `p`.
abbrev pub Outside : ℕ → ℕ → ℕ → Type 0
Outside p n q = (q < p) ⊎ (p + n ≤ q)

pub store_bytes_miss :
    (cs : List ℕ) (p : ℕ) (mem : Mem) (q : ℕ)
    → Outside p (length cs) q
    → store_bytes cs p mem q ≡ mem q
unfolding store_bytes
store_bytes_miss [] p mem q out = refl
store_bytes_miss (c ∷ cs) p mem q (inl before) =
    store_bytes_miss cs (p + 1) (store_byte p c mem) q (inl (omega arith))
    ∙ store_byte_miss p c mem q (omega arith)
store_bytes_miss (c ∷ cs) p mem q (inr behind) =
    store_bytes_miss cs (p + 1) (store_byte p c mem) q (inr (omega arith))
    ∙ store_byte_miss p c mem q (omega arith)

pub read_bytes-store_bytes :
    (cs : List ℕ) (p : ℕ) (mem : Mem) → read_bytes (length cs) p (store_bytes cs p mem) ≡ cs
unfolding read_bytes store_bytes
read_bytes-store_bytes [] p mem = refl
read_bytes-store_bytes (c ∷ cs) p mem =
    ap₂ (λ d ds. d ∷ ds)
      (store_bytes_miss cs (p + 1) (store_byte p c mem) p (inl (omega arith))
        ∙ store_byte_hit p c mem p refl)
      (read_bytes-store_bytes cs (p + 1) (store_byte p c mem))

pub read_bytes_same :
    (n p : ℕ) (mem mem' : Mem) → Agree p n mem mem' → read_bytes n p mem ≡ read_bytes n p mem'
unfolding read_bytes
read_bytes_same zero p mem mem' same = refl
read_bytes_same (suc n) p mem mem' same =
    ap₂ (λ d ds. d ∷ ds) (same p (omega arith) (omega arith))
      (read_bytes_same n (p + 1) mem mem' (λ q lo hi. same q (omega arith) (omega arith)))

pub read_le_same :
    (n p : ℕ) (mem mem' : Mem) → Agree p n mem mem' → read_le n p mem ≡ read_le n p mem'
unfolding read_le
read_le_same zero p mem mem' same = refl
read_le_same (suc n) p mem mem' same =
    ap₂ (λ d v. d + 256 * v) (same p (omega arith) (omega arith))
      (read_le_same n (p + 1) mem mem' (λ q lo hi. same q (omega arith) (omega arith)))

pub store_le_miss :
    (n p val : ℕ) (mem : Mem) (q : ℕ) → Outside p n q → store_le n p val mem q ≡ mem q
unfolding store_le
store_le_miss zero p val mem q out = refl
store_le_miss (suc n) p val mem q (inl before) =
    store_le_miss n (p + 1) (val / 256) (store_byte p (val % 256) mem) q (inl (omega arith))
    ∙ store_byte_miss p (val % 256) mem q (omega arith)
store_le_miss (suc n) p val mem q (inr behind) =
    store_le_miss n (p + 1) (val / 256) (store_byte p (val % 256) mem) q (inr (omega arith))
    ∙ store_byte_miss p (val % 256) mem q (omega arith)

-- The number that `n` bytes hold is the value without its higher part.
abbrev pub low_bytes : ℕ → ℕ → ℕ
low_bytes zero val = 0
low_bytes (suc n) val = val % 256 + 256 * low_bytes n (val / 256)

pub read_le-store_le :
    (n p val : ℕ) (mem : Mem) → read_le n p (store_le n p val mem) ≡ low_bytes n val
unfolding read_le store_le
read_le-store_le zero p val mem = refl
read_le-store_le (suc n) p val mem =
    ap₂ (λ d v. d + 256 * v)
      (store_le_miss n (p + 1) (val / 256) (store_byte p (val % 256) mem) p (inl (omega arith))
        ∙ store_byte_hit p (val % 256) mem p refl)
      (read_le-store_le n (p + 1) (val / 256) (store_byte p (val % 256) mem))

pub low_bytes_word : (val : ℕ) → val < 2 ^ 64 → low_bytes 8 val ≡ val
low_bytes_word val lt = omega arith
