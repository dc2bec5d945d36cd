-- ===== src/Tmpfs/RoundTrip.antt =====
-- fs/tmpfs/tmpfs.c: what is written is read back.
use bomboclaat_os.Base.{
  none, sym, ℕ, zero, suc, ◌+◌, ◌-◌, ◌%◌, ◌^◌, ◌≤◌, ◌<◌, ◌≡◌, refl, ap, ◌∙◌, ◌⊎◌, inl, inr, true,
  false, ◌||◌, some, List, [], ◌∷◌, ◌++◌, ltb, leb, if◌then◌else◌, Bool-cases, Option-cases, length,
  length-append, length-take, length-drop, length-replicate, take, drop, replicate, arith,
}
use bomboclaat_os.Base.Int.{ℤ, pos}
use bomboclaat_os.Tmpfs.{TmpFile, blit, realloc, grow, tmpfs_read, tmpfs_write}

take-append : (xs ys : List ℕ) → take (length xs) (xs ++ ys) ≡ xs
take-append [] ys = refl
take-append (x ∷ xs) ys = ap (λ l. x ∷ l) (take-append xs ys)

drop-append : (n : ℕ) (xs ys : List ℕ) → length xs ≡ n → drop n (xs ++ ys) ≡ ys
drop-append zero [] ys h = refl
drop-append zero (x ∷ xs) ys h = absurd (omega arith)
drop-append (suc n) [] ys h = absurd (omega arith)
drop-append (suc n) (x ∷ xs) ys h = drop-append n xs ys (omega arith)

-- The bytes that a copy put into a block are found there, and the block keeps its length.
record Blitted (block : List ℕ) (offset : ℕ) (buf block' : List ℕ) : Type 0 where
  fits : offset + length buf ≤ length block
  same_length : length block' ≡ length block
  found : take (length buf) (drop offset block') ≡ buf
  before : take offset block' ≡ take offset block

take-take-append : (n : ℕ) (xs ys : List ℕ) → n ≤ length xs → take n (take n xs ++ ys) ≡ take n xs
take-take-append zero xs ys h = refl
take-take-append (suc n) [] ys h = absurd (omega arith)
take-take-append (suc n) (x ∷ xs) ys h = ap (λ l. x ∷ l) (take-take-append n xs ys (omega arith))

take-length : (xs : List ℕ) → take (length xs) xs ≡ xs
take-length [] = refl
take-length (x ∷ xs) = ap (λ l. x ∷ l) (take-length xs)

pub blit_lem :
    (block : List ℕ) (offset : ℕ) (buf : List ℕ)
    → length buf < 2 ^ 32
    → blit block offset buf ≡ (
        if ltb (length block) (offset + length buf)
        then none
        else some (take offset block ++ (buf ++ drop (offset + length buf) block)))
unfolding blit
blit_lem block offset buf small =
    let n : length buf % 2 ^ 32 ≡ length buf = omega arith in rw (n, take-length buf) refl

blit-Blitted :
    (block : List ℕ) (offset : ℕ) (buf : List ℕ) {block' : List ℕ}
    → length buf < 2 ^ 32
    → blit block offset buf ≡ some block'
    → Blitted block offset buf block'
blit-Blitted block offset buf {block'} small done =
    let h = sym (blit_lem block offset buf small) ∙ done in
    elim (Bool-cases (ltb (length block) (offset + length buf))) [
      | inl over ↦ absurd (ground arith)
      | inr fits ↦
          let rest = drop (offset + length buf) block in
          let made : take offset block ++ (buf ++ rest) ≡ block' = ground arith in
          let le : offset + length buf ≤ length block = ground arith in
          let front : length (take offset block) ≡ offset =
            omega (arith, length-take offset block) in
          rw (← made) (record {
            fits = le;
            same_length = omega (
              arith,
              length-append (take offset block) (buf ++ rest),
              length-append buf rest,
              length-drop (offset + length buf) block,
            );
            found =
                ap (take (length buf)) (drop-append offset (take offset block) (buf ++ rest) front)
                ∙ take-append buf rest;
            before = take-take-append offset block (buf ++ rest) (omega arith);
          })
    ]

-- What a successful tmpfs_write leaves: the bytes at their offset, and the size set to their end.
record Wrote (buffer : List ℕ) (offset : ℕ) (r : ℤ) (file' : TmpFile) : Type 0 where
  block : List ℕ
  held : file'.content ≡ some block
  returned : r ≡ pos (length buffer)
  sized : file'.size ≡ offset + length buffer
  fits : offset + length buffer ≤ length block
  found : take (length buffer) (drop offset block) ≡ buffer

tmpfs_write-Wrote :
    (file : TmpFile) (block : List ℕ) (buffer : List ℕ) (offset : ℕ) {r : ℤ} {file' : TmpFile}
    → file.content ≡ some block
    → length buffer < 2 ^ 32
    → offset + length buffer < 2 ^ 64
    → tmpfs_write file buffer offset ≡ some (r, file')
    → Wrote buffer offset r file'
unfolding tmpfs_write
tmpfs_write-Wrote file block buffer offset {r} {file'} held short small =
    rw (held, tmpfs_write)
      (elim (Option-cases (grow block file.size (length buffer) offset)) [
        | inl none' ↦ rw (none', tmpfs_write) (λ h. ground arith)
        | inr (grown, g) ↦
            rw (g, tmpfs_write)
              (elim (Option-cases (blit grown offset buffer)) [
                | inl none' ↦ rw (none', tmpfs_write) (λ h. ground arith)
                | inr (block', b) ↦
                    rw (b, tmpfs_write)
                      (λ h.
                        let w = blit-Blitted grown offset buffer short b in
                        record {
                          block = block';
                          held = ground arith;
                          returned = ground arith;
                          sized = ground arith;
                          fits = omega (arith, w.fits, w.same_length);
                          found = w.found;
                        })
              ])
      ])

read_back :
    (file' : TmpFile) (buffer : List ℕ) (offset : ℕ)
    → 0 < length buffer
    → length buffer < 2 ^ 32
    → Wrote buffer offset (pos (length buffer)) file'
    → tmpfs_read file' (length buffer) offset ≡ some (pos (length buffer), buffer)
unfolding tmpfs_read
read_back file' buffer offset some_bytes len w =
    let inside : leb file'.size offset ≡ false = ground (arith, w.sized) in
    let all : (if ltb (length buffer) (file'.size - offset)
          then length buffer
          else file'.size - offset)
        ≡ length buffer =
      ground (arith, w.sized) in
    let m : length buffer % 2 ^ 32 ≡ length buffer = omega arith in
    let le : ltb (length w.block) (offset + length buffer) ≡ false = ground (arith, w.fits) in
    rw (w.held, inside, all, m, le, w.found) (ap (λ k. some (pos k, buffer)) all)

-- The write stays in the block that it ends up with: the old one, or a new one that ends where the
-- write does, and that takes the old one in.
abbrev pub Fits : List ℕ → (size len offset : ℕ) → Type 0
Fits block size len offset =
    ((ltb size offset || ltb size len) ≡ true) × (length block ≤ offset + len)
    ⊎ ((ltb size offset || ltb size len) ≡ false) × (offset + len ≤ length block)

blit-some :
    (block : List ℕ) (offset : ℕ) (buf : List ℕ)
    → length buf < 2 ^ 32
    → offset + length buf ≤ length block
    → (block' : List ℕ) × (blit block offset buf ≡ some block') × (length block' ≡ length block)
blit-some block offset buf small le =
    let out : List ℕ = take offset block ++ (buf ++ drop (offset + length buf) block) in
    let fits : ltb (length block) (offset + length buf) ≡ false = ground arith in
    let e : blit block offset buf ≡ some out = blit_lem block offset buf small ∙ rw fits refl in
    (out, e, (blit-Blitted block offset buf small e).same_length)

grow-some :
    (block : List ℕ) (size len offset : ℕ)
    → length block < 2 ^ 32
    → offset + len < 2 ^ 64
    → Fits block size len offset
    → (block' : List ℕ) × (grow block size len offset ≡ some block')
      × (offset + len ≤ length block')
unfolding grow realloc
grow-some block size len offset short small (inl (more, le)) =
    let n : (offset + len) % 2 ^ 64 ≡ offset + len = omega arith in
    let zeros = replicate (offset + len) 0 in
    let room = length-replicate (offset + len) (let b : ℕ = 0 in b) in
    let (block', e, same) = blit-some zeros 0 block short (omega (arith, room)) in
    let is_new : grow block size len offset ≡ blit zeros 0 block = rw (more, n) refl in
    (block', is_new ∙ e, omega (arith, same, room))
grow-some block size len offset short small (inr (same, le)) = (block, rw same refl, le)

write_step :
    (file : TmpFile) (block : List ℕ) (buffer : List ℕ) (offset : ℕ) (grown block' : List ℕ)
    → file.content ≡ some block
    → grow block file.size (length buffer) offset ≡ some grown
    → blit grown offset buffer ≡ some block'
    → tmpfs_write file buffer offset
      ≡ some (
        pos (length buffer),
        record { content = some block'; size = (offset + length buffer) % 2 ^ 64 },
      )
unfolding tmpfs_write
write_step file block buffer offset grown block' held g b =
    rw (held, tmpfs_write) (rw (g, tmpfs_write) (rw (b, tmpfs_write) refl))

-- tmpfs_write returns the number of bytes written whenever it stays in memory, the file ends behind
-- them, and tmpfs_read at the same offset for as many bytes returns exactly the bytes written.
pub tmpfs_read-tmpfs_write :
    (file : TmpFile) (block : List ℕ) (buffer : List ℕ) (offset : ℕ)
    → file.content ≡ some block
    → length block < 2 ^ 32
    → 0 < length buffer
    → length buffer < 2 ^ 32
    → offset + length buffer < 2 ^ 64
    → Fits block file.size (length buffer) offset
    → (file' : TmpFile) × (tmpfs_write file buffer offset ≡ some (pos (length buffer), file'))
      × (file'.size ≡ offset + length buffer)
      × (tmpfs_read file' (length buffer) offset ≡ some (pos (length buffer), buffer))
tmpfs_read-tmpfs_write file block buffer offset held short some_bytes len small fits =
    let (grown, g, le) = grow-some block file.size (length buffer) offset short small fits in
    let (block', b, _) = blit-some grown offset buffer len le in
    let file' : TmpFile = record {
      content = some block';
      size = (offset + length buffer) % 2 ^ 64;
    } in
    let done : tmpfs_write file buffer offset ≡ some (pos (length buffer), file') =
      write_step file block buffer offset grown block' held g b in
    let w = tmpfs_write-Wrote file block buffer offset held len small done in
    (file', done, w.sized, read_back file' buffer offset some_bytes len w)
