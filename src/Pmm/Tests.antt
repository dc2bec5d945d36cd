-- ===== src/Pmm/Tests.antt =====
-- core/memory/pmm.c: a machine of sixteen frames, and a memory map of sixty-four.
use bomboclaat_os.Base.{◌≡◌, refl, List, [], ◌∷◌, arith}
use bomboclaat_os.Base.Bits.{bit_at}
use bomboclaat_os.Pmm.Map.{Pmm, bitmap_set, bitmap_unset, is_used, give_frame}
use bomboclaat_os.Pmm.Alloc.{
  take_frame, alloc_loop, pmm_alloc_frame, take_frames, contiguous_loop, pmm_alloc_contiguous,
  freed, pmm_free_frame,
}
use bomboclaat_os.Pmm.Boot.{Entry, count_entry, count_entries, init_memmap}
use bomboclaat_os.Pmm.Frames.{IsValid, AllocResult, pmm_alloc_frame-AllocResult}
use bomboclaat_os.Pmm.Free.{FreeOutcome, pmm_free_frame-FreeOutcome}
use bomboclaat_os.Pmm.Contiguous.{ContiguousResult, pmm_alloc_contiguous-ContiguousResult}

-- Frames 0, 1 and 3 are used, and twelve are usable.
abbrev small : Pmm
small = record { bitmap = 11 ∷ 0 ∷ []; total_frames = 16; used_frames = 3; usable_frames = 12 }

abbrev small_after : Pmm
small_after = record small { bitmap = 15 ∷ 0 ∷ []; used_frames = 4 }

small-IsValid : IsValid small
unfolding is_used bit_at
small-IsValid = record {
  bytes = (omega arith, (omega arith, tt));
  covers = omega arith;
  small = omega arith;
  counted = refl;
}

alloc_takes_frame_2 : pmm_alloc_frame small ≡ (8192, small_after)
unfolding pmm_alloc_frame alloc_loop take_frame is_used bitmap_set bit_at
alloc_takes_frame_2 = refl

contiguous_takes_frame_4 : (pmm_alloc_contiguous 3 small).0 ≡ 16384
unfolding pmm_alloc_contiguous contiguous_loop take_frames take_frame is_used bitmap_set bit_at
contiguous_takes_frame_4 = refl

free_undoes : pmm_free_frame 8192 small_after ≡ freed small
unfolding pmm_free_frame give_frame is_used bitmap_unset bit_at
free_undoes = refl

-- A page of reserved memory, then sixty-three usable ones.
abbrev two_entries : List Entry
two_entries =
    record { base = 0; length = 4096; type = 1 }
    ∷ record { base = 4096; length = 258048; type = 0 }
    ∷ []

init_memmap_two : init_memmap two_entries ≡ record { total = 258048; usable = 258048 }
unfolding init_memmap count_entries count_entry
init_memmap_two = refl

pmm_alloc_frame-AllocResult_example : AllocResult small 1 (pmm_alloc_frame small)
pmm_alloc_frame-AllocResult_example = pmm_alloc_frame-AllocResult small small-IsValid (omega arith)

pmm_free_frame-FreeOutcome_example : FreeOutcome small 12288 (pmm_free_frame 12288 small)
pmm_free_frame-FreeOutcome_example = pmm_free_frame-FreeOutcome small 12288 small-IsValid

pmm_alloc_contiguous-ContiguousResult_example :
    ContiguousResult small 3 (pmm_alloc_contiguous 3 small)
pmm_alloc_contiguous-ContiguousResult_example =
    pmm_alloc_contiguous-ContiguousResult small 3 small-IsValid (omega arith) (omega arith)
