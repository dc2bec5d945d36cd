-- ===== src/Pmm.antt =====
-- core/memory/pmm.c: the bitmap allocator of physical frames.
-- The globals of the file are the fields of `Pmm`; the bitmap is a list of bytes, a frame's bit
-- set when the frame is used. A function that changes the globals returns the new record.
-- `uintptr_t` arithmetic is taken mod 2^64.
mod Map
mod Alloc
mod Boot
pub mod Bitmap
pub mod Frames
pub mod Free
pub mod Release
pub mod Init
pub mod Tests
pub mod Contiguous
pub mod Count
unfoldable pub use Map.*
unfoldable pub use Alloc.*
pub use Boot.*
