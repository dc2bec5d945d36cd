-- ===== src/Lib.antt =====
-- BOMBOCLAAT-OS, an operating system for x86-64: a model of its kernel, from the C sources.
--
-- The kernel boots from Limine, takes the memory map into a bitmap of physical frames
-- (core/memory/pmm.c), gives each task an address space of page tables in such frames
-- (core/memory/vmm.c), loads programs into it (core/tasks/exec.c) and copies between it and its own
-- memory (core/memory/userspace.c), keeps a table and a ring of tasks (core/tasks), lets them run in turn
-- (core/tasks/sched.c), ends them on exit or a signal, and gives them files by descriptors
-- (fs/vfs/vfs.c) over file systems such as tmpfs (fs/tmpfs/tmpfs.c) and devices such as the keyboard
-- (core/drivers/keyboard.c).
--
-- The files, and the code that they are about:
--   Base: numbers, Boolean tests, lists, bits and signed integers that all parts share.
--   Memtools: core/memory/memtools.c. Move and Compare hold the proofs.
--   Strings: lib/string.c: strlen, strcmp, strncmp, strcpy, the two case functions and atoi;
--     Edit holds reverse, Number itoa, Laws and RoundTrip the proofs.
--   Pmm: core/memory/pmm.c. Map, Alloc and Boot hold the functions of the source under their names
--     (pmm_alloc_frame, pmm_alloc_contiguous, pmm_free_frame, pmm_init, ...) on the record Pmm of the
--     file's globals. Bitmap, Count, Frames, Free, Release, Init and Contiguous hold the proofs.
--   Stack: core/memory/stack.c; isEmpty and isFull are is_empty and is_full.
--   Keyboard: core/drivers/keyboard.c, the buffer of scan codes on that stack, and get_ascii.
--   Vfs: the descriptors and open files of fs/vfs/vfs.c, and the loops over descriptors of
--     core/tasks/tasks.c (task_inherit_fds, task_terminate, task_release).
--   Tmpfs: reading, writing and deleting in fs/tmpfs/tmpfs.c, with memcpy of core/memory/memtools.c
--     and realloc of core/memory/kmalloc.c.
--   Tasks: Store is task_t and the globals of core/tasks/tasks.c; Table its array and run queue, and
--     core/tasks/sched.c; Life is task_terminate, task_reap and core/tasks/exit.c; Signal is
--     core/tasks/ipc/signal.c. Ring, Pick, Wait, Adopt, End, Laws, Send and Sent hold the
--     proofs.
--   Vmm: core/memory/vmm.c. Table, Map and Space hold its functions and vmm_is_shared_frame of
--     core/tasks/tasks.c; Tree says when the tables of an address space form a tree, Pages which
--     entry an address has; Grow, Mapping, Unmap, Resolve and Init hold the proofs.
--   Userspace: core/memory/userspace.c. Copy holds the two copies, whose loops are copy_to_loop and
--     copy_from_loop, Text copy_string_from_user; Paged, From, To, Chunk, Page and Line the proofs.
--   UserMemory: pages for a running task. Fresh is pmm_alloc_frame_zeroed and the block that maps
--     such a frame, Heap is task_sbrk, Fault is user_pf of core/memory/pfault.c and
--     task_map_shared_regions; Space, Break and Growing hold the proofs.
--   Exec: core/tasks/exec.c. Elf reads the headers of include/bomboclaat/elf64.h, Validate holds
--     elf_validate and elf_find_sigterm, Load elf_load, Args exec_copy_args; Program says what a
--     program is, and Segments, Accept, Sigterm, Flags, Pages, Walk, Loaded, Argv and Copied hold the
--     proofs.
--   Kmalloc: core/memory/kmalloc.c. Blocks holds heap_init, split_block, _kmalloc (raw_kmalloc) and
--     the loops of _kfree, Chunk kmalloc, kfree, kptrsize, kmalloc_aligned and _kfree (raw_kfree);
--     Tiles says when the blocks are a heap, Alloc, Free, RoundTrip, Bytes, Served, Released, Signed and Cycle hold
--     the proofs.
--   Paths: Space is the inodes, directory entries, directories and globals; Names the comparison of
--     names, Tree the directories of fs/tmpfs/tmpfs.c and fs/devfs/devfs.c, Find vfs_find, vfs_mount,
--     vfs_find_fs and vfs_register_fs of fs/vfs/vfs.c; Named, Create, Reach, Mounts, Mounted and
--     Registry hold the proofs.
--   Kprintf: core/kprintf.c. Digits holds print_dec and print_hex, whose loops that count digits are
--     count_digits, Kprintf itself vasprintf; Counted, Printed and Format hold the proofs.
--   Initramfs: parse_hex and initramfs_get_files of core/initramfs.c; Archive says what an
--     archive is, Hex and Unpack hold the proofs.
--   The modules named Tests run the functions on small states.
--
-- How the code is read: the globals of a file are a record, and a function that changes them returns
-- the new one. A pointer is a number, 0 the null pointer, and a store maps pointers to objects. A
-- linked list of children is the list of its pointers. Unsigned arithmetic of w bits is taken mod
-- 2^w. Functions run with interrupts off are one step. A null result, an error number and a panic
-- are values; an access outside an object is none.
--
-- A page table is given by its physical address and is a function from indices to words, apart
-- from the memory of bytes; hhdm_offset, where the kernel sees physical memory, is a field, and the
-- theorems on Userspace and on exec_copy_args take it to be a multiple of the page size. Frames
-- lie below 2^52, as CLEAR_FLAGS has it. The loops of vmm.c over four levels of tables are one
-- function that recurs on the level. CR3 and the translation cache are left out. The file that
-- elf_load reads lies apart from the frames that it writes.
--
-- Fuel: the loops over pages recur on the number of pages, the copies between kernel and user on the
-- number of bytes, of which each round takes one at least. The loops over frames, descriptors and
-- the task array recur on the rounds that are left.
-- The loop of unlink_from_runqueue has no bound in the source; it gets 33 rounds, one for each task
-- that the array holds and one for the kernel task, and on a ring of that size it ends by itself.
-- itoa has 64 rounds, since a number of 64 bits has 64 digits at most in any base.
-- The search of pick_next_task has the 34 rounds of the source. The loops of core/kprintf.c that count
-- digits get 31 and 7 rounds, behind which the greatest number of so many digits is 2^32 - 1, where the
-- source stops. The walk over the archive has as many rounds as the buffer has places.
--
-- What the code takes from outside is an argument: the memory map of the boot loader, the pointer
-- that kmalloc returned to vfs_open, the inode that vfs_find found, the operations of an inode,
-- what copy_to_user reports to a signal, the bit of nx_flag, and the byte read from the keyboard's
-- port. The constants of errno.h are constructors of a type. In Paths the memory that kmalloc returns,
-- the inode that a file system's own mount returns and the strings that pointers lead to are arguments. In
-- Initramfs what kmalloc returns for a file, and in join for its name, is given by the number of the
-- entry; null is a write to a null pointer there, as in the source.
--
-- The heap's free list is the list of its blocks in their order. The headers of blocks are apart
-- from the memory of bytes, in which the chunks and their headers are. _kfree reads the upper half of
-- a block's next pointer, and eight bytes with the padding of the block's header, which are an argument.
--
-- Not modelled: the bytes of the pages that vmm_clone_user_space copies, of which only the words of
-- tables are kept, the size that tmpfs_write puts in the inode beside that of the file, pf_handler, the stack of a new program and the rest of core/tasks/exec.c, creating
-- tasks (core/tasks/fork.c), parse_path of fs/vfs/vfs.c, which nothing calls, the functions that set
-- the file systems up, fs/fat32, the function initramfs, the rest of lib/string.c, lib/math.c, the
-- system call dispatch and the user programs. Registers, ports, interrupt tables, the context
-- switch, the screen and the disk are hardware. limine-binary, include/boot/limine.h and the fonts
-- are other projects' code and data.
pub mod Base
pub mod Pmm
pub mod Stack
pub mod Keyboard
pub mod Vfs
pub mod Tmpfs
pub mod Tasks
pub mod Memtools
pub mod Strings
pub mod Vmm
pub mod Userspace
pub mod UserMemory
pub mod Exec
pub mod Kmalloc
pub mod Paths
pub mod Kprintf
pub mod Initramfs
