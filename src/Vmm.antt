-- ===== src/Vmm.antt =====
-- core/memory/vmm.c: page tables of four levels.
-- A table is given by its physical address, 0 for null: `pml4_virtual` less `hhdm_offset`. `entry t i`
-- is the word `entries[i]` of the table at `t`. A word has 64 bits. The register CR3 and the
-- translation cache of the processor are not part of the state.
mod Table
mod Map
mod Space
pub mod Tree
pub mod Grow
pub mod Pages
pub mod Mapping
pub mod Unmap
pub mod Resolve
pub mod Init
pub mod Sample
mod Tests
unfoldable pub use Table.*
unfoldable pub use Map.*
unfoldable pub use Space.*
