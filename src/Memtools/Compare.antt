-- ===== src/Memtools/Compare.antt =====
-- core/memory/memtools.c: memcmp against equality of the bytes, and memset.
use bomboclaat_os.Base.{
  ℕ, zero, suc, ◌+◌, ◌%◌, ◌^◌, ◌<◌, ◌≡◌, refl, ap, ◌∙◌, inl, inr, ◌↔◌, ltb, if◌then◌else◌,
  Bool-cases, arith,
}
use bomboclaat_os.Base.Int.{pos}
use bomboclaat_os.Memtools.{Mem, store_byte, memcmp_from, memcmp, fill, memset}
use bomboclaat_os.Memtools.Move.{in_range}

-- The `n` bytes at `a` and at `b` are the same.
abbrev pub SameBytes : ℕ → ℕ → ℕ → Mem → Type 0
SameBytes n a b mem = (i : ℕ) → i < n → mem (a + i) ≡ mem (b + i)

SameBytes-suc :
    (n a b : ℕ) (mem : Mem)
    → mem a ≡ mem b
    → SameBytes n (a + 1) (b + 1) mem
    → SameBytes (suc n) a b mem
SameBytes-suc n a b mem e same zero h = ap mem (omega arith) ∙ e ∙ ap mem (omega arith)
SameBytes-suc n a b mem e same (suc i) h =
    ap mem (omega arith) ∙ same i (omega arith) ∙ ap mem (omega arith)

memcmp_from_zero : (n a b : ℕ) (mem : Mem) → memcmp_from n a b mem ≡ pos 0 → SameBytes n a b mem
unfolding memcmp_from
memcmp_from_zero zero a b mem h = λ i lt. absurd (omega arith)
memcmp_from_zero (suc n) a b mem h = elim (Bool-cases (ltb (mem a) (mem b))) [
  | inl less ↦ let k = rw less at h in absurd (ground arith)
  | inr _ ↦ elim (Bool-cases (ltb (mem b) (mem a))) [
    | inl more ↦ absurd (ground arith)
    | inr _ ↦
        SameBytes-suc n a b mem (ground arith)
          (memcmp_from_zero n (a + 1) (b + 1) mem (ground arith))
  ]
]

memcmp_from_same : (n a b : ℕ) (mem : Mem) → SameBytes n a b mem → memcmp_from n a b mem ≡ pos 0
unfolding memcmp_from
memcmp_from_same zero a b mem same = refl
memcmp_from_same (suc n) a b mem same =
    let first : mem a ≡ mem b =
      ap mem (omega arith) ∙ same 0 (omega arith) ∙ ap mem (omega arith) in
    let rest =
      memcmp_from_same n (a + 1) (b + 1) mem
        (λ i h. ap mem (omega arith) ∙ same (suc i) (omega arith) ∙ ap mem (omega arith)) in
    ground (arith, rest)

-- memcmp is 0 exactly if the two ranges hold the same bytes.
pub memcmp_zero_iff :
    (buf1 buf2 count : ℕ) (mem : Mem)
    → (memcmp buf1 buf2 count mem ≡ pos 0) ↔ SameBytes count buf1 buf2 mem
unfolding memcmp
memcmp_zero_iff buf1 buf2 count mem =
    (memcmp_from_zero count buf1 buf2 mem, memcmp_from_same count buf1 buf2 mem)

pub fill_lem :
    (n p byte : ℕ) (mem : Mem) (q : ℕ)
    → fill n p byte mem q ≡ (if in_range p n q then byte else mem q)
unfolding fill
fill_lem zero p byte mem q = ground arith
fill_lem (suc n) p byte mem q =
    let rest = fill_lem n (p + 1) byte (store_byte p byte mem) q in ground (arith, rest)

-- memset puts the low byte of the value at each address of the range and changes nothing else.
pub memset_lem :
    (ptr value num : ℕ) (mem : Mem) (q : ℕ)
    → num < 2 ^ 32
    → memset ptr value num mem q ≡ (if in_range ptr num q then value % 256 else mem q)
unfolding memset
memset_lem ptr value num mem q small =
    let m : num % 2 ^ 32 ≡ num = omega arith in rw m (fill_lem num ptr (value % 256) mem q)
