-- ===== src/Userspace/Chunk.antt =====
-- core/memory/userspace.c: the inner loop of copy_string_from_user.
use bomboclaat_os.Base.{
  ℕ, zero, suc, ◌+◌, ◌-◌, ◌≤◌, ◌<◌, min, ◌≡◌, ◌≢◌, refl, sym, ap, ◌∙◌, ◌⊎◌, inl, inr, Bool, true,
  false, ◌==◌, ==_iff, ltb, Bool-cases, arith, false≢true,
}
use bomboclaat_os.Memtools.{Mem, store_byte}
use bomboclaat_os.Memtools.Move.{store_byte_hit, store_byte_miss}
use bomboclaat_os.Userspace.Text.{copy_chunk}
use bomboclaat_os.Userspace.From.{Out}

-- The `n` bytes from `at` on are not 0.
abbrev pub NonZero : (at n : ℕ) → Mem → Type 0
NonZero at n mem = (i : ℕ) → i < n → mem (at + i) ≢ 0

-- The `n` bytes from `src` on, as they were, are at `dst`.
abbrev pub Arrived : (dst src n : ℕ) → Mem → Mem → Type 0
Arrived dst src n mem mem' = (i : ℕ) → i < n → mem' (dst + i) ≡ mem (src + i)

-- What the loop leaves: the string ended at its byte `n`; or none of its bytes was the end, and the
-- page or the buffer is at its end.
abbrev pub ChunkOutcome : (rounds kptr dst copied max_len : ℕ) → Mem → Bool × ℕ × Mem → Type 0
ChunkOutcome rounds kptr dst copied max_len mem (ended, copied', mem') =
    ((q : ℕ) → Out (dst + copied) (max_len - copied) q → mem' q ≡ mem q)
    × (((ended ≡ true)
          × ((n : ℕ) × (n < min rounds (max_len - copied))
              × (copied' ≡ copied + n + 1)
              × NonZero kptr n mem
              × (mem (kptr + n) ≡ 0)
              × Arrived (dst + copied) kptr (n + 1) mem mem'))
        ⊎ ((ended ≡ false)
            × (copied' ≡ copied + min rounds (max_len - copied))
            × NonZero kptr (min rounds (max_len - copied)) mem
            × Arrived (dst + copied) kptr (min rounds (max_len - copied)) mem mem'))

-- One more byte at the front.
NonZero-suc :
    (at n : ℕ) (mem mem1 : Mem)
    → mem at ≢ 0
    → ((i : ℕ) → i < n → mem1 (at + 1 + i) ≡ mem (at + 1 + i))
    → NonZero (at + 1) n mem1
    → NonZero at (suc n) mem
NonZero-suc at n mem mem1 first same rest zero lt = λ h. first (ap mem (omega arith) ∙ h)
NonZero-suc at n mem mem1 first same rest (suc i) lt =
    λ h. rest i (omega arith) (same i (omega arith) ∙ ap mem (omega arith) ∙ h)

Arrived-suc :
    (dst src n : ℕ) (mem mem1 mem' : Mem)
    → mem' dst ≡ mem src
    → ((i : ℕ) → i < n → mem1 (src + 1 + i) ≡ mem (src + 1 + i))
    → Arrived (dst + 1) (src + 1) n mem1 mem'
    → Arrived dst src (suc n) mem mem'
Arrived-suc dst src n mem mem1 mem' first same rest zero lt =
    ap mem' (omega arith) ∙ first ∙ ap mem (omega arith)
Arrived-suc dst src n mem mem1 mem' first same rest (suc i) lt =
    ap mem' (omega arith) ∙ rest i (omega arith) ∙ same i (omega arith) ∙ ap mem (omega arith)

-- A round that goes on.
ChunkOutcome-step :
    (rounds kptr dst copied max_len : ℕ) (mem mem1 : Mem) (ended : Bool) (copied' : ℕ) (mem' : Mem)
    → copied < max_len
    → mem kptr ≢ 0
    → mem1 (dst + copied) ≡ mem kptr
    → ((q : ℕ) → q ≢ dst + copied → mem1 q ≡ mem q)
    → ((j : ℕ) → j < suc rounds → j < max_len - copied → Out dst max_len (kptr + j))
    → ChunkOutcome rounds (kptr + 1) dst (copied + 1) max_len mem1 (ended, copied', mem')
    → ChunkOutcome (suc rounds) kptr dst copied max_len mem (ended, copied', mem')
ChunkOutcome-step rounds kptr dst copied max_len mem mem1 ended copied' mem' room nz hit miss apart
      (outside, rest) =
    let m = min rounds (max_len - (copied + 1)) in
    let first : mem' (dst + copied) ≡ mem kptr = outside (dst + copied) (inl (omega arith)) ∙ hit in
    let source : (i : ℕ) → i < m → mem1 (kptr + 1 + i) ≡ mem (kptr + 1 + i) = λ i lt.
      miss (kptr + 1 + i)
        (λ e. let out = apart (i + 1) (omega arith) (omega arith) in omega arith) in
    let count : suc m ≡ min (suc rounds) (max_len - copied) = omega arith in
    (
      (λ q out. outside q (omega arith) ∙ miss q (λ e. omega arith)),
      elim rest [
        | inl (ending, (n, lt, c, nonzero, end, arrived)) ↦
            let same : (i : ℕ) → i < n → mem1 (kptr + 1 + i) ≡ mem (kptr + 1 + i) =
              λ i h. source i (omega arith) in
            let same' : (i : ℕ) → i < n + 1 → mem1 (kptr + 1 + i) ≡ mem (kptr + 1 + i) =
              λ i h. source i (omega arith) in
            let here : dst + copied + 1 ≡ dst + (copied + 1) = omega arith in
            inl (
              ending,
              (
                suc n,
                omega arith,
                omega arith,
                NonZero-suc kptr n mem mem1 nz same nonzero,
                ap mem (omega arith) ∙ sym (source n lt) ∙ end,
                (λ i h.
                    Arrived-suc (dst + copied) kptr (n + 1) mem mem1 mem' first same'
                      (λ j h'. ap mem' (omega arith) ∙ arrived j h') i (omega arith)),
              ),
            )
        | inr (going, c, nonzero, arrived) ↦ inr (
          going,
          omega arith,
          (λ i h. NonZero-suc kptr m mem mem1 nz source nonzero i (omega arith)),
          (λ i h.
              Arrived-suc (dst + copied) kptr m mem mem1 mem' first source
                (λ j h'. ap mem' (omega arith) ∙ arrived j h') i (omega arith)),
        )
      ],
    )

pub copy_chunk-ChunkOutcome :
    (rounds kptr dst copied max_len : ℕ) (mem : Mem)
    → ((j : ℕ) → j < rounds → j < max_len - copied → Out dst max_len (kptr + j))
    → ChunkOutcome rounds kptr dst copied max_len mem
        (copy_chunk rounds kptr dst copied max_len mem)
unfolding copy_chunk
copy_chunk-ChunkOutcome zero kptr dst copied max_len mem apart = (
  (λ q out. refl),
  inr (refl, omega arith, (λ i lt. absurd (omega arith)), (λ i lt. absurd (omega arith))),
)
copy_chunk-ChunkOutcome (suc rounds) kptr dst copied max_len mem apart =
    elim (Bool-cases (ltb copied max_len)) [
      | inr full ↦
          let le : max_len ≤ copied = ground arith in
          rw full (
            (λ q out. refl),
            inr (refl, omega arith, (λ i lt. absurd (omega arith)), (λ i lt. absurd (omega arith))),
          )
      | inl room ↦
          let lt : copied < max_len = ground arith in
          let at = dst + copied in
          let mem1 : Mem = store_byte at (mem kptr) mem in
          let hit = store_byte_hit at (mem kptr) mem at refl in
          let miss : (q : ℕ) → q ≢ at → mem1 q ≡ mem q =
            λ q ne. store_byte_miss at (mem kptr) mem q (λ e. ne (sym e)) in
          elim (Bool-cases (mem kptr == 0)) [
            | inl end ↦
                let z = (==_iff (mem kptr) 0).0 end in
                rw (room, end)
                  (
                    (λ q out. miss q (λ e. omega arith)),
                    inl (
                      refl,
                      (
                        0,
                        omega arith,
                        omega arith,
                        (λ i h. absurd (omega arith)),
                        ap mem (omega arith) ∙ z,
                        (λ i h. ap mem1 (omega arith) ∙ hit ∙ ap mem (omega arith)),
                      ),
                    ),
                  )
            | inr more ↦
                let nz : mem kptr ≢ 0 = λ e. false≢true (sym more ∙ (==_iff (mem kptr) 0).1 e) in
                let rest =
                  copy_chunk-ChunkOutcome rounds (kptr + 1) dst (copied + 1) max_len mem1 (λ j h h'.
                    let out = apart (j + 1) (omega arith) (omega arith) in omega arith) in
                rw (room, more)
                  (ChunkOutcome-step rounds kptr dst copied max_len mem mem1 _ _ _ lt nz hit miss
                    apart rest)
          ]
    ]
