-- ===== src/UserMemory.antt =====
-- core/tasks/tasks.c and core/memory/pfault.c: pages that are given to a task while it runs.
mod Fresh
mod Heap
mod Fault
pub mod Space
pub mod Break
pub mod Growing
mod Tests
unfoldable pub use Fresh.*
unfoldable pub use Heap.*
unfoldable pub use Fault.*
