-- ===== src/Memtools.antt =====
-- core/memory/memtools.c: copying, filling and comparing memory, and little-endian stores.
-- Memory is the function from addresses to bytes; each loop recurs on the rounds that are left.
pub mod Move
pub mod Compare
pub mod Tests
use bomboclaat_os.Base.{ℕ, zero, suc, ◌+◌, ◌-◌, ◌/◌, ◌%◌, ◌^◌, Bool, ◌&&◌, ◌==◌, ltb, if◌then◌else◌}
use bomboclaat_os.Base.Int.{ℤ, pos, minus_one}

abbrev pub Mem : Type 0
Mem = ℕ → ℕ

-- `*p = v`
abbrev pub store_byte : ℕ → ℕ → Mem → ℕ → ℕ
store_byte p v mem q = if p == q then v else mem q

-- `while (len-- > 0) *dp++ = *sp++;`
unfoldable pub copy_up : ℕ → ℕ → ℕ → Mem → Mem
copy_up zero d s mem = mem
copy_up (suc n) d s mem = copy_up n (d + 1) (s + 1) (store_byte d (mem s) mem)

-- `while (len-- > 0) *--dp = *--sp;`
unfoldable pub copy_down : ℕ → ℕ → ℕ → Mem → Mem
copy_down zero d s mem = mem
copy_down (suc n) d s mem = copy_down n (d - 1) (s - 1) (store_byte (d - 1) (mem (s - 1)) mem)

-- The length has 32 bits.
unfoldable pub memcpy : ℕ → ℕ → ℕ → Mem → Mem
memcpy dst src len mem = copy_up (len % 2 ^ 32) dst src mem

unfoldable pub memmove : ℕ → ℕ → ℕ → Mem → Mem
memmove dst src len mem =
    if ltb src dst && ltb dst (src + len)
    then copy_down len (dst + len) (src + len) mem
    else copy_up len dst src mem

unfoldable pub fill : ℕ → ℕ → ℕ → Mem → Mem
fill zero p byte mem = mem
fill (suc n) p byte mem = fill n (p + 1) byte (store_byte p byte mem)

unfoldable pub memset : ℕ → ℕ → ℕ → Mem → Mem
unfolding fill
memset ptr value num mem = fill (num % 2 ^ 32) ptr (value % 256) mem

unfoldable pub memcmp_from : ℕ → ℕ → ℕ → Mem → ℤ
memcmp_from zero a b mem = pos 0
memcmp_from (suc n) a b mem =
    let rest = memcmp_from n (a + 1) (b + 1) mem in
    if ltb (mem a) (mem b) then minus_one else if ltb (mem b) (mem a) then pos 1 else rest

unfoldable pub memcmp : ℕ → ℕ → ℕ → Mem → ℤ
memcmp buf1 buf2 count mem = memcmp_from count buf1 buf2 mem

-- Bytes 4 to 7 of the value all go to `dst[3]`, as in the source.
unfoldable pub write_u64 : ℕ → ℕ → Mem → Mem
write_u64 dst val mem = store_byte (dst + 3) (val / 2 ^ 56 % 256) (
    store_byte (dst + 3) (val / 2 ^ 48 % 256) (
      store_byte (dst + 3) (val / 2 ^ 40 % 256) (
        store_byte (dst + 3) (val / 2 ^ 32 % 256) (
          store_byte (dst + 3) (val / 2 ^ 24 % 256) (
            store_byte (dst + 2) (val / 2 ^ 16 % 256)
              (store_byte (dst + 1) (val / 2 ^ 8 % 256) (store_byte dst (val % 256) mem)))))))

unfoldable pub write_u32 : ℕ → ℕ → Mem → Mem
write_u32 dst val mem = store_byte (dst + 3) (val / 2 ^ 24 % 256) (
    store_byte (dst + 2) (val / 2 ^ 16 % 256)
      (store_byte (dst + 1) (val / 2 ^ 8 % 256) (store_byte dst (val % 256) mem)))

unfoldable pub write_u16 : ℕ → ℕ → Mem → Mem
write_u16 dst val mem = store_byte (dst + 1) (val / 2 ^ 8 % 256) (store_byte dst (val % 256) mem)

unfoldable pub write_u8 : ℕ → ℕ → Mem → Mem
write_u8 dst val mem = store_byte dst (val % 256) mem
