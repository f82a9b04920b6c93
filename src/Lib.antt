-- ===== src/Lib.antt =====
-- Verification of the operating-systems assignments.
--
-- The repository holds four assignments. Modelled are the object store of assignment 4, a file
-- system that keeps objects on a disk image below FUSE, and the parts that assignments 1 to 3 add
-- to a small teaching kernel: address spaces, page faults and system calls, and the scheduler.
--
-- assignment4, from the disk up:
--   ObjStore/Disk     `read_block` and `write_block` of assignment4/lib.c. The image is a function
--                     from positions to bytes; which transfers the operating system refuses is
--                     the field `faulty`.
--   ObjStore/Cache    `cache_blk_read` and `cache_blk_write` of assignment4/objstore.c. The state
--                     (the image, the cache area, `cache_index`, `cache_dirty`) is `BlockStore`;
--                     the Boolean argument says whether the build defines CACHE. Below it: View
--                     (what a client sees), Lines (loading and saving a line), Transparent (one
--                     call), Runs (sequences of calls against an array of blocks), Flush (the
--                     loops of `objstore_init` and `objstore_destroy` over the cache).
--   ObjStore/Scan     the nested loop over a bitmap that the functions share.
--   ObjStore/Bitmap   the bit operations on a bitmap.
--   ObjStore/Store    the file-scope state of objstore.c as the record `Store`. Keys are texts
--                     without their NUL. `Outcome.undefined` is undefined behaviour of C.
--   ObjStore/Alloc    `free_data_block`; ObjStore/Lookup `find_target`, `find_object_id` and
--                     `fillup_size_details`; ObjStore/Create `create_object`; ObjStore/Rename
--                     `rename_object`, with the value of its uninitialised counter as an argument;
--                     ObjStore/Destroy `destroy_object`.
--   ObjStore/Data     `objstore_write` and `objstore_read`. Below it: Direct, Opening and Behind
--                     (what a write to a direct page, to the first page of an indirect block and
--                     to a later one leaves), Layout (the table of pages that a store stands for),
--                     Files and Writing (how a write changes that table), Room (free blocks),
--                     Reading, Refines, Calls and Runs (sequences of calls against the table),
--                     Forgotten (the pages that a write loses), RoundTrip.
--   ObjStore/Mount    `objstore_init` and `objstore_destroy`: the table of `struct object` and the
--                     bitmaps as bytes. Below it: Blocks and Image (the loops over the blocks),
--                     Objects and Bytes (objects in bytes), Remount, Survives and Session (a store
--                     that is unmounted and mounted again).
--   Fuse              the callbacks `objfs_getattr` to `objfs_release` of assignment4/objfs.c; Fuse/Race
--                     takes `objfs_getattr` apart into its steps, for two threads.
--
-- assignment3:
--   Sched/Context     the structures of assignment3/include/context.h and schedule.h. A `Kernel`
--                     holds the contexts by pid, the current pid, memory as 64-bit words, the
--                     pages given back and the tick count.
--   Sched/Pick        `pick_next_context`; Sched/Signal `invoke_sync_signal`; Sched/Tick
--                     `handle_timer_tick`, where the words of the interrupt stack are a list;
--                     Sched/Calls `do_exit`, `do_sleep`, `do_signal`, `do_alarm` and, in
--                     Sched/Calls/Clone, `do_clone`, with the name of the copy in Digits and Named.
--   Sched/Running     sequences of ticks and calls; Sched/Sleeping `do_sleep` and the ticks after.
--
-- assignment4/example/objstore.c, the object store the course hands out:
--   Example           the table of objects; Example/Content their bytes and the two builds, in
--                     Bytes, Reading, Writing and RoundTrip; Table and Creation `create_object`.
--                     Mount is `objstore_init` and `objstore_destroy`, in Synced and Remount; the
--                     bytes of the table in memory are a parameter. A size is a natural number.
--
-- assignment1 and assignment2:
--   Vm/Tables         the page tables: the loop of the two functions `allocate` and the walk of
--                     `do_syscall`. A table is named by its frame; `frame n` is what the `n`-th
--                     call of `os_pfn_alloc` returns. Opening, Page and Forest: one level of the
--                     loop; Mapped the whole of it; Extended and Grown several addresses.
--   Vm/Context        assignment1/context_mm.c, with set-up in Prepared. Vm/Fault
--                     `check_present`, `allocate` and `handle_page_fault` of assignment2/entry.c;
--                     Vm/Syscall `do_syscall`, with arithmetic on 32 and 64 bits written out and
--                     `Result.undefined` for an `int` that overflows.
--
-- Bounds. Loops recurse on the number of rounds the source gives them: 4096 bytes of a block,
-- 31744 and 262144 words of 32 bits of the bitmaps, 32768 lines of the cache, 16 contexts, 4
-- entries and 1024 integers of an object's blocks, so no result depends on fuel. The digits of a
-- pid are taken with the pid as fuel, which Sched/Calls/Clone/Digits shows to be enough. Bit
-- operations are those on native numbers; `push_address`, `plus` and `minus` wrap at 2 ^ 64,
-- `bytes_of` at 2 ^ 32. `write_index`, `read_index`, `retval_of` and `int_digits` are the places
-- where the source puts a wider number into an `int`. Sizes and signal numbers are not negative.
--
-- Not modelled: the directory callbacks, logging, the text of messages, allocation that fails but
-- for a length of 0, the end of the image file, and the interleaving of calls that hold no lock,
-- but for the one in Fuse/Race. Of assignment4/example only objstore.c is modelled; of
-- working_schedules/ nothing, since schedule_v3.c is schedule.c and the others are drafts of it.
-- `Base` holds what the modules share, `Tests` concrete runs.
pub mod Base
pub mod ObjStore
pub mod Fuse
pub mod Example
pub mod Sched
pub mod Vm
pub mod Tests
