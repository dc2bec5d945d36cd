-- ===== src/Userspace.antt =====
-- core/memory/userspace.c: copying between the kernel and the pages of the current task.
-- Memory is a function from the kernel's addresses to bytes, the tables of the address space are
-- read only here.
mod Copy
mod Text
pub mod Paged
pub mod From
pub mod To
pub mod Chunk
pub mod Page
pub mod Line
mod Tests
unfoldable pub use Copy.*
unfoldable pub use Text.*
