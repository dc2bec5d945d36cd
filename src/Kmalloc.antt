-- ===== src/Kmalloc.antt =====
-- core/memory/kmalloc.c: the kernel's heap.
-- The blocks are the list that `free_list` begins, each with the address of its header. The headers of
-- blocks are kept apart from the memory of bytes, those of chunks are in it.
mod Blocks
pub mod Tiles
mod Alloc
mod Free
mod RoundTrip
mod Chunk
mod Served
mod Released
mod Bytes
mod Signed
pub mod Cycle
mod Tests
unfoldable pub use Blocks.*
unfoldable pub use Chunk.*
