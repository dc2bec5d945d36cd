-- ===== src/Pmm/Alloc.antt =====
-- core/memory/pmm.c: allocating and freeing frames. The result 0 is the null pointer; each loop
-- recurs on the rounds that are left.
use bomboclaat_os.Base.{ℕ, zero, suc, ◌+◌, ◌-◌, ◌*◌, ◌/◌, ◌%◌, ◌==◌, leb, if◌then◌else◌}
use bomboclaat_os.Pmm.Map.{Pmm, page_size, word, bitmap_set, give_frame, is_used}

-- `bitmap_set(i); used_frames++;`
unfoldable pub take_frame : Pmm → ℕ → Pmm
take_frame p i = record p { bitmap = bitmap_set p.bitmap i; used_frames = word (p.used_frames + 1) }

-- The loop of pmm_alloc_frame, at frame `i` with `rounds` frames left.
unfoldable pub alloc_loop : ℕ → ℕ → Pmm → ℕ × Pmm
alloc_loop zero i p = (0, p)
alloc_loop (suc rounds) i p =
    let rest = alloc_loop rounds (i + 1) p in
    if is_used p.bitmap i then rest else (word (i * page_size), take_frame p i)

unfoldable pub pmm_alloc_frame : Pmm → ℕ × Pmm
unfolding alloc_loop
pmm_alloc_frame p = alloc_loop (p.total_frames - 1) 1 p

-- The inner loop of pmm_alloc_contiguous: `count` frames from `first`.
unfoldable pub take_frames : ℕ → ℕ → Pmm → Pmm
take_frames zero first p = p
take_frames (suc count) first p = take_frames count (first + 1) (take_frame p first)

-- The outer loop; `run` counts the free frames just below `i`.
unfoldable pub contiguous_loop : ℕ → ℕ → ℕ → ℕ → Pmm → ℕ × Pmm
contiguous_loop zero count i run p = (0, p)
contiguous_loop (suc rounds) count i run p =
    let again = contiguous_loop rounds count (i + 1) 0 p in
    let further = contiguous_loop rounds count (i + 1) (run + 1) p in
    let first = i + 1 - count in
    if is_used p.bitmap i
    then again
    else if run + 1 == count
    then (word (first * page_size), take_frames count first p)
    else further

unfoldable pub pmm_alloc_contiguous : ℕ → Pmm → ℕ × Pmm
unfolding contiguous_loop take_frames
pmm_alloc_contiguous count p =
    if count == 0 then (0, p) else contiguous_loop (p.total_frames - 1) count 1 0 p

-- What pmm_free_frame does besides: nothing, a log line, or a panic, which does not return.
pub data FreeResult : Type 0 where
  freed : Pmm → FreeResult
  already_free : Pmm → FreeResult
  panic_unaligned : FreeResult
  panic_too_high : FreeResult

unfoldable pub pmm_free_frame : ℕ → Pmm → FreeResult
pmm_free_frame phys p =
    let frame = phys / page_size in
    if phys % page_size == 0
    then if leb (word (p.total_frames * page_size)) phys
      then panic_too_high
      else if is_used p.bitmap frame
      then freed (give_frame p frame)
      else already_free p
    else panic_unaligned
