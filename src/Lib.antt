-- ===== src/Lib.antt =====
-- The Heap: a slab allocator for a kernel's heap, and a FAT32 driver over a disk image in memory,
-- with the boot kernel that shows both.
--
-- The parts and where they are modelled:
--   slaballoc/src/util.rs: Slab/Align (`align_up`, `is_power_of_two` on 64-bit words).
--   slaballoc/src/allocator.rs: Slab/Allocator. A `Heap` is the `SlabAllocator` and the bytes of
--     the region, since the free lists are threaded through the free blocks themselves. A pointer
--     is its address, and the null pointer is 0. Each method is the function of its name; the
--     loop of `refill_cache` is `carve`, the branches of `alloc` and `dealloc` are `alloc_as` and
--     `dealloc_as`.
--   slaballoc/src/lib.rs: Slab/Lock has `SpinLock`, its guard and `LockedAlloc`; Slab/Lock/System
--     interleaves threads that use them, as a step relation, and Slab/Client has what callers of
--     `GlobalAlloc` may do, one call at a time. Slab/Tests has the unit tests.
--   fat32/src/lib.rs: Fat32/Error (`FatError`), Fat32/Text (8.3 names and path splitting),
--     Fat32/Volume (boot sector, geometry, FAT and chains), Fat32/Read (`Fat32`), Fat32/Write
--     (`Fat32Mut`). `Fat32` and `Fat32Mut` have the same fields, so `Volume` is both. A reading
--     function gives a `Result`; a writing one is a command that ends with the volume as it
--     leaves it, also where it fails. Both may end in a panic: every range of the buffer that is
--     read or written panics where it passes the buffer (`read_range`, `write_range`), as does the
--     index `chain[0]` on an empty chain. Fat32/Tests has the unit tests, and Fat32/Tests/Image
--     their image.
--   fat32/src/main.rs: Cli/Path (`resolve_path`), Cli/Host (the files of the host, a parameter, and
--     the messages), Cli/Words (the words of a line), Cli/Shell (the commands and `run_shell`),
--     Cli/Arguments (the loop over the arguments) and Cli/Main (`main`). A command gives a `Reply`
--     with the session that it leaves, a panic included. Cli/Tests has the unit tests.
--   fat32/src/dir_entry.rs: Fat32/DirEntry, with the bytes that the writing side stores.
--   kernel/src/main.rs: Kernel/Image, the disk image of the demonstration, which the witnesses run
--     on, Kernel/Serial, the serial port over a device that is a parameter, Kernel/Line,
--     `vga_write_line`, and Kernel/Demo, `demo` on a machine of port, screen and allocator, with
--     `kernel_main` behind it.
--   kernel/src/vga.rs: Kernel/Vga, the cursor, the text buffer and the colours.
--   Bytes has the buffers and the little-endian integers of both crates; Prelude has the names
--   and lemmas that all share.
--
-- The command line calls the driver, and its laws rest on those of Fat32/Write/Calm. The allocator
-- and the driver do not call each other; the kernel's demonstration uses both, and the driver's
-- buffers are on the allocator's heap there: what the alloc crate asks of the allocator is a
-- parameter of Kernel/Demo.
--
-- Where the laws stand: Slab/Ownership has the vocabulary of the allocator's laws, a map from each
-- block address to a status (free in a class, held from a class, held from the bump path) and the
-- invariant that ties it to the allocator's fields, to the list that each head leads to in memory,
-- and to the bounds of the heap; its children are named for the operations. The laws of the driver
-- stand in the children of Fat32/Volume, Fat32/Write, Fat32/DirEntry and Fat32/Text: of those of
-- Fat32/Write, Table to Store follow a write from the FAT up to a file's content, Calm has what
-- every write leaves alone, Lookup, Found and Replace have the search for a directory entry behind
-- a write over it, Slot and Insert that behind a write to a free slot, Spot and Put both writes as
-- one, Named and Sibling the search for other names, Listing the reading side's view, Keep and
-- Stay what the parts leave alone. Plan splits `write_file_by_path` into the part that reads and
-- the part that writes, Steps, Wrote and Whole put the parts together, ByPath reads the file
-- again by its path, Refuse has the errors, and the modules called Safe have the panics of what
-- only reads. Those of the command line stand in
-- Cli/Path/Canonical, in the children of Cli/Shell and in Cli/Main/Exits; those of the kernel with
-- its definitions, and in the children of Kernel/Vga and Kernel/Demo.
--
-- Bounds and fuel: a `usize` has 64 bits. `align_up`, `init` and the sums of `carve` wrap as the
-- source does; the sum in `alloc_from_bump` is checked as in the source. The offsets of the driver
-- are products of fields of at most 32 bits and cannot reach `2 ^ 64`, so they are not reduced; the
-- casts to `u32` are. The fuel of `carve`: a chunk has 4096 bytes and a block eight or more, so 4096
-- rounds are more than the loop makes where its sums do not wrap (Slab/Ownership/Refill). On a
-- chunk that ends within a block of 2^64 they do, and the source's loop does not end there; the
-- laws are about heaps that end more than a page below. `follow_chain` has the bound of the source,
-- 4096 clusters. `parse_args` has a round for each argument and one more.
--
-- Not modelled: panics for want of memory, and those of arithmetic in a debug build; the memory
-- orderings of the lock's atomic (its steps are sequentially consistent) and the fairness of the
-- scheduler; the kernel's port instructions and its test runner; the formatting of the text
-- writer, and its lock, which is that of slaballoc word for word; the wording of the command
-- line's messages, and the panics of its run-time library: `env::args` on an argument that is not
-- Unicode, and `println!` and `eprintln!` on an output that is closed. `Fat32Mut` repeats the
-- reading functions of `Fat32`.
pub mod Prelude
pub mod Bytes
pub mod Fat32
pub mod Kernel
pub mod Slab
pub mod Cli
