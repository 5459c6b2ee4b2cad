-- ===== src/Lib.antt =====
-- bestOS, a small x86-64 kernel with its C library.
--
-- The kernel boots through stivale2, takes memory from a bitmap of pages
-- (src/kernel/arch/memory/pmm.c), and keeps its files in a tree of nodes
-- (src/kernel/fs/vfs.c) that drivers are mounted on. Both use the small C library under
-- src/lib.
--
-- Files:
-- - Common has the names of the standard library, Boolean tests on numbers, machine words and
--   the lemmas on bits that the other files share.
-- - Base has the macros of src/lib/base.h. Mem is src/lib/mem.c, on a memory of bytes.
-- - Str is src/lib/str.c. A string is the list of the bytes before its terminator. NULL is
--   `none`. Only strcpy works on the memory.
-- - Vec has the vectors of src/lib/vec.h, which are another project's, as an interface.
-- - Pmm is src/kernel/arch/memory/pmm.c. The globals are the record `Pmm`, the bytes behind
--   `bitmap.data` a function of the index. Pmm/Init is pmm_initialize: Pmm/Init/Top is about
--   the top of the memory, Covers about the usable pages and the place of the bitmap, Laws
--   about the whole, Bounds about the size of the bitmap.
-- - Lock is src/lib/lock.h on one processor.
-- - Vmm is src/kernel/arch/memory/vmm.c. The tables lie in the memory of bytes by virtual
--   address, each used under one address, and Vmm/Walk is the walk of the processor. The
--   other files under Vmm go from one entry (Entries), the invariant (Tables), a call of
--   get_next_level (Descend), the path of a walk (Spine) and the three calls (Pml1) to the
--   whole (LastEntry, Map, Ranges). Vmm/Grown says where new tables come from, Vmm/Blocks is
--   about a block that is taken beside the tables; Vmm/Sample is a machine for the tests.
-- - Sched is the scheduler of src/kernel/sched.c: Sched/Task has the task and its registers,
--   Sched/Rounds counts ticks, Sched/Remove is a process that leaves.
-- - Devices is src/kernel/arch/devices/com.c and pic.c, as accesses to ports. Devices/Chips
--   says what the chips do with the writes, Devices/Serial is about the serial line,
--   Devices/Setup about the registers after the set-up.
-- - Elf is the loader of src/kernel/elf.c, Elf/Headers the headers of elf.h. Elf/Segment is
--   the loop over the pages of a segment, Elf/Loaded its bytes, Elf/Load all of load_segment.
-- - Kernel puts the states together in one record, with commands on it that return, halt or
--   fault; Kernel/Sample is a small machine for the tests.
-- - Process is task_init and sched_new_elf_process of src/kernel/sched.c. Process/StackImage
--   is the part that fills the stack, and its children go from the strings to the whole;
--   Process/Launch is the stack in the state of the kernel.
-- - Interrupts is src/kernel/arch/interrupts.c, Interrupts/Switch the change of tasks.
-- - Boot is src/kernel/bootstrap.c and main.c.
-- - Descriptors is src/kernel/arch/gdt.c and idt.c.
-- - Print is src/lib/print.c: Print/Digits is string_convert, Print/Format is fmt_str.
-- - Fs is the handlers of src/kernel/fs/tmpfs.c, devfs.c and ustar.c, with vfs_read and
--   vfs_write. Fs/Archive puts the files of an archive into the tree.
-- - Syscalls is src/kernel/syscalls.c: the calls on file descriptors openat, close and seek;
--   Syscalls/Handlers has all calls on the state of the kernel, Syscalls/Dispatch the table,
--   Syscalls/Errors the way of an error to the registers.
-- - Vfs is src/kernel/fs/vfs.c and vfs.h. A `VfsNode *` is an address in a heap of nodes, a
--   function a state transformer that may fault (a NULL pointer or an address that holds no
--   node). Vfs/Parse is vfs_parse_path, Vfs/Node vfs_find_node and vfs_get_parent, Vfs/Open
--   vfs_open, vfs_mkdir (Vfs/Open/Mkdir) and vfs_mount (Vfs/Open/Mount).
--
-- Numbers are natural numbers; where the code computes in 64, 32 or 8 bits the model wraps
-- around (`add64`, `sub64`, `u64`, `u32`, `u8`).
--
-- Loops over a counter are recursion on the rounds left. The other loops have fuel: strstr
-- takes one unit for each byte of the text and the other text it may compare, basename one
-- for each byte, vfs_parse_path three more than the bytes of the path, and the theorems on
-- them state that a result is returned. strcpy takes the fuel as an argument and its theorem
-- says how much is enough. vmm_map_range and load_segment have one unit for each page and
-- one more. The polls of the serial line, the look-up of tags, the archive and the arrays of
-- strings take fuel as an argument, and their theorems say how much is enough.
--
-- Parameters: malloc gives an address that may be assumed not NULL and not in use
-- (`MallocLaws`), the vector operations of src/lib/vec.h append, cut and remove (`VecOps`,
-- `PtrOps`), and realloc keeps the bytes of the block (`Moved`). What malloc and free do to
-- the memory for the buffer of devfs_read is `Heap`. `Libs` of Kernel has the rest: `deinit`
-- is vec_deinit, which frees and so may give pages back, and `fxsave` the instruction, which
-- stores 512 bytes at a field of 8, so it may change anything that lies behind a task.
--
-- Memory is addressed by the virtual address that the code uses; the memory of a task is not
-- translated, as the kernel reads it under the page map of the task.
--
-- Not modelled: the floating-point registers themselves, the TLB, assembly and the inline
-- assembly that touches no port; print_files and the log lines, where they change nothing
-- else; liballoc, vec and the stivale2 header, which are copies of other projects; and the
-- programs under src/apps.
pub mod Common
pub mod Base
pub mod Mem
pub mod Str
pub mod Vec
pub mod Print
pub mod Pmm
pub mod Lock
pub mod Vmm
pub mod Descriptors
pub mod Devices
pub mod Sched
pub mod Vfs
pub mod Fs
pub mod Elf
pub mod Kernel
pub mod Process
pub mod Interrupts
pub mod Boot
pub mod Syscalls
