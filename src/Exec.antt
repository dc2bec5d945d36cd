-- ===== src/Exec.antt =====
-- core/tasks/exec.c and include/bomboclaat/elf64.h: checking and loading of programs.
-- The file is in memory at `data`. A result is a number that is 0 or the negative of a constant of
-- errno.h, which is not part of the repository: such a constant is a constructor of `Errno`.
mod Elf
mod Validate
pub mod Program
pub mod Segments
pub mod Accept
pub mod Sigterm
pub mod Flags
pub mod Pages
pub mod Walk
pub mod Loaded
mod Tests
unfoldable pub use Elf.*
mod Load
mod Args
pub mod Argv
pub mod Copied
unfoldable pub use Validate.*
unfoldable pub use Load.*
unfoldable pub use Args.*
