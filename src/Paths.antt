-- ===== src/Paths.antt =====
-- The names of files: fs/vfs/vfs.c from paths to inodes and mounts, the directories of
-- fs/tmpfs/tmpfs.c, and fs/devfs/devfs.c.
mod Names
mod Space
mod Tree
mod Find
mod Named
mod Create
mod Reach
mod Mounts
mod Mounted
pub mod Registry
mod Tests
unfoldable pub use Names.*
unfoldable pub use Space.*
unfoldable pub use Tree.*
unfoldable pub use Find.*
