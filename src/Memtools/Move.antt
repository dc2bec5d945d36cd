-- ===== src/Memtools/Move.antt =====
-- core/memory/memtools.c: memcpy, memmove and memset against one write of all bytes at once.
use bomboclaat_os.Base.{
  ℕ, zero, suc, ◌+◌, ◌-◌, ◌*◌, ◌/◌, ◌%◌, ◌^◌, ◌≤◌, ◌<◌, ◌≡◌, refl, sym, ap, ◌∙◌, ◌⊎◌, inl, inr,
  Bool, true, false, ◌&&◌, ◌==◌, ==_iff, ltb, leb, if◌then◌else◌, Bool-cases, arith, ◌≢◌,
}
use native.Mathlib.Decide.{dec_lt}
use bomboclaat_os.Memtools.{
  Mem, store_byte, copy_up, copy_down, memcpy, memmove, write_u64, write_u32,
}

-- `q` is one of the `n` addresses from `d` on.
abbrev pub in_range : ℕ → ℕ → ℕ → Bool
in_range d n q = leb d q && ltb q (d + n)

-- All `n` bytes from `s` on appear at `d`, as they were.
abbrev pub copied : ℕ → ℕ → ℕ → Mem → ℕ → ℕ
copied d s n mem q = if in_range d n q then mem (s + (q - d)) else mem q

pub store_byte_hit : (p v : ℕ) (mem : Mem) (q : ℕ) → p ≡ q → store_byte p v mem q ≡ v
store_byte_hit p v mem q e = let h = (==_iff p q).1 e in rw h refl

pub store_byte_miss : (p v : ℕ) (mem : Mem) (q : ℕ) → p ≢ q → store_byte p v mem q ≡ mem q
store_byte_miss p v mem q ne = let h : (p == q) ≡ false = ground arith in rw h refl

pub copied_in :
    (d s n : ℕ) (mem : Mem) (q : ℕ) → d ≤ q → q < d + n → copied d s n mem q ≡ mem (s + (q - d))
copied_in d s n mem q lo hi = let h : in_range d n q ≡ true = ground arith in rw h refl

pub copied_out :
    (d s n : ℕ) (mem : Mem) (q : ℕ) → (q < d) ⊎ (d + n ≤ q) → copied d s n mem q ≡ mem q
copied_out d s n mem q out = let h : in_range d n q ≡ false = ground arith in rw h refl

pub copy_up_lem :
    (n d s : ℕ) (mem : Mem) (q : ℕ)
    → (d ≤ s) ⊎ (s + n ≤ d)
    → copy_up n d s mem q ≡ copied d s n mem q
unfolding copy_up
copy_up_lem zero d s mem q apart = sym (copied_out d s zero mem q (ground arith))
copy_up_lem (suc n) d s mem q apart =
    let mem' = store_byte d (mem s) mem in
    let rest = copy_up_lem n (d + 1) (s + 1) mem' q (ground arith) in
    elim (dec_lt q d) [
      | yes below ↦
          rest
          ∙ copied_out (d + 1) (s + 1) n mem' q (inl (omega arith))
          ∙ store_byte_miss d (mem s) mem q (λ e. omega arith)
          ∙ sym (copied_out d s (suc n) mem q (inl below))
      | no above ↦ elim (dec_lt q (d + suc n)) [
        | no over ↦
            rest
            ∙ copied_out (d + 1) (s + 1) n mem' q (inr (omega arith))
            ∙ store_byte_miss d (mem s) mem q (λ e. omega arith)
            ∙ sym (copied_out d s (suc n) mem q (inr (omega arith)))
        | yes inside ↦ elim (dec_lt d q) [
          | yes later ↦
              rest
              ∙ copied_in (d + 1) (s + 1) n mem' q (omega arith) (omega arith)
              ∙ store_byte_miss d (mem s) mem (s + 1 + (q - (d + 1))) (λ e. omega arith)
              ∙ ap mem (omega arith)
              ∙ sym (copied_in d s (suc n) mem q (omega arith) inside)
          | no first ↦
              rest
              ∙ copied_out (d + 1) (s + 1) n mem' q (inl (omega arith))
              ∙ store_byte_hit d (mem s) mem q (omega arith)
              ∙ ap mem (omega arith)
              ∙ sym (copied_in d s (suc n) mem q (omega arith) inside)
        ]
      ]
    ]

copy_down_lem :
    (n d s : ℕ) (mem : Mem) (q : ℕ) → s ≤ d → copy_down n (d + n) (s + n) mem q ≡ copied d s n mem q
unfolding copy_down
copy_down_lem zero d s mem q le = sym (copied_out d s zero mem q (ground arith))
copy_down_lem (suc n) d s mem q le =
    let mem' = store_byte (d + n) (mem (s + n)) mem in
    let step : copy_down (suc n) (d + suc n) (s + suc n) mem q
        ≡ copy_down n (d + n) (s + n) mem' q =
      let a : d + suc n - 1 ≡ d + n = omega arith in
      let b : s + suc n - 1 ≡ s + n = omega arith in rw (a, b) refl in
    let rest = step ∙ copy_down_lem n d s mem' q le in
    elim (dec_lt q d) [
      | yes below ↦
          rest
          ∙ copied_out d s n mem' q (inl below)
          ∙ store_byte_miss (d + n) (mem (s + n)) mem q (λ e. omega arith)
          ∙ sym (copied_out d s (suc n) mem q (inl below))
      | no above ↦ elim (dec_lt q (d + n)) [
        | yes inside ↦
            rest
            ∙ copied_in d s n mem' q (omega arith) inside
            ∙ store_byte_miss (d + n) (mem (s + n)) mem (s + (q - d)) (λ e. omega arith)
            ∙ sym (copied_in d s (suc n) mem q (omega arith) (omega arith))
        | no over ↦ elim (dec_lt (d + n) q) [
          | yes out ↦
              rest
              ∙ copied_out d s n mem' q (inr (omega arith))
              ∙ store_byte_miss (d + n) (mem (s + n)) mem q (λ e. omega arith)
              ∙ sym (copied_out d s (suc n) mem q (inr (omega arith)))
          | no last ↦
              rest
              ∙ copied_out d s n mem' q (inr (omega arith))
              ∙ store_byte_hit (d + n) (mem (s + n)) mem q (omega arith)
              ∙ ap mem (omega arith)
              ∙ sym (copied_in d s (suc n) mem q (omega arith) (omega arith))
        ]
      ]
    ]

-- memmove puts the old bytes of the source at the destination and changes no other byte, also
-- where the two overlap.
pub memmove_lem :
    (dst src len : ℕ) (mem : Mem) (q : ℕ) → memmove dst src len mem q ≡ copied dst src len mem q
unfolding memmove
memmove_lem dst src len mem q = elim (Bool-cases (ltb src dst && ltb dst (src + len))) [
  | inl over ↦ rw over (copy_down_lem len dst src mem q (ground arith))
  | inr apart ↦ rw apart (copy_up_lem len dst src mem q (ground arith))
]

-- memcpy does the same, if the length has 32 bits and the destination does not begin inside the
-- source.
pub memcpy-copied :
    (dst src len : ℕ) (mem : Mem) (q : ℕ)
    → len < 2 ^ 32
    → (dst ≤ src) ⊎ (src + len ≤ dst)
    → memcpy dst src len mem q ≡ copied dst src len mem q
unfolding memcpy
memcpy-copied dst src len mem q small apart =
    let m : len % 2 ^ 32 ≡ len = omega arith in rw m (copy_up_lem len dst src mem q apart)

-- write_u64 stores the top byte of the value at `dst + 3`, and nothing behind it.
pub write_u64_partial :
    (dst val : ℕ) (mem : Mem)
    → (write_u64 dst val mem (dst + 3) ≡ val / 2 ^ 56 % 256)
      × ((q : ℕ) → dst + 4 ≤ q → write_u64 dst val mem q ≡ mem q)
unfolding write_u64
write_u64_partial dst val mem = (ground arith, λ q h. ground arith)

-- The four bytes that write_u32 stores make up the value again, lowest first.
pub write_u32_bytes :
    (dst val : ℕ) (mem : Mem)
    → val < 2 ^ 32
    → let mem' = write_u32 dst val mem in
      mem' dst + 2 ^ 8 * mem' (dst + 1) + 2 ^ 16 * mem' (dst + 2) + 2 ^ 24 * mem' (dst + 3) ≡ val
unfolding write_u32
write_u32_bytes dst val mem h = ground arith
