-- ===== src/Memtools/Tests.antt =====
-- core/memory/memtools.c: a memory in which each byte is its address, and short copies in it.
use bomboclaat_os.Base.{◌%◌, ◌≡◌, refl}
use bomboclaat_os.Base.Int.{pos, minus_one}
use bomboclaat_os.Memtools.{Mem, copy_up, copy_down, memmove, memcmp_from, memcmp}
use bomboclaat_os.Memtools.Move.{copied, memmove_lem}

abbrev counting : Mem
counting p = p % 256

-- Both ways of overlapping.
overlaps : (memmove 12 10 4 counting 15 ≡ 13) × (memmove 10 12 4 counting 13 ≡ 15)
unfolding memmove copy_up copy_down
overlaps = (refl, refl)

compares : (memcmp 3 3 5 counting ≡ pos 0) × (memcmp 3 4 5 counting ≡ minus_one)
unfolding memcmp memcmp_from
compares = (refl, refl)

memmove_lem_example : memmove 12 10 4 counting 15 ≡ copied 12 10 4 counting 15
memmove_lem_example = memmove_lem 12 10 4 counting 15
