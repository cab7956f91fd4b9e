-- ===== src/Lib.antt =====
-- Verification library of AAAos, an operating system in C.
--
-- The kernel runs on x86_64. Its boot loader hands it a memory map, from which the physical memory
-- manager (kernel/mm/pmm.c) takes the free pages; the heap (kernel/mm/heap.c), the page tables and
-- the network buffers (net/core/netbuf.c) take their pages from that manager. Processes
-- (kernel/proc) take turns under the scheduler (kernel/sched), which the timer calls. They are put
-- to sleep and woken by the objects they wait for, the pipes (kernel/ipc/pipe.c) and the message
-- queues (kernel/ipc/message.c). Files carry permission bits that security/acl checks. Drivers,
-- file systems, the network stack and the desktop stand on these.
--
-- Which file models which part:
--   Base: names that all files share. Base/Tests has the comparisons of C as Boolean tests,
--     Base/Lists has arrays as lists, Base/Bits masks and single bits, Base/Circular the copy loops
--     of a circular buffer of any size, which pipes and the ready queue share.
--   Kernel/Process: the state field of each process, and process_set_state. Table has the other
--     fields of process_t and the table of kernel/proc/process.c: looking up, counting and creating
--     processes, and Exit has process_exit and process_init; Lookup, Begins and Ends are about what
--     process_get_by_pid finds.
--   Kernel/Scheduler: the ready queue and every call of kernel/sched/scheduler.c over that table.
--     Fifo and Remove are about the queue, Turns about scheduler_schedule, Ticks about
--     scheduler_tick and waiting times, Stale about the two variables named current_process.
--   Kernel/WaitQueue: the fixed array of waiting processes in a pipe_t and a msg_queue_t, with the
--     enqueueing of pipe_block_reader and the shifting of pipe_wake_reader. Fifo says what order it
--     keeps.
--   Kernel/Pipe: pipe_t and pipe_try_read, pipe_try_write. Blocking has pipe_read and pipe_write,
--     Table has pipe_init, pipe_create, pipe_close and pipe_close_fd on the table of pipes. Fifo,
--     Channel and Contract relate the circular buffer to a queue of bytes and the two calls to
--     calls on that queue; Stream is about sequences of calls; Sleep, Rounds and Crowding about the
--     loops that wait; Create and Close about the table.
--   Kernel/Message: message_pool with its linked nodes, the queues, and the sending and receiving
--     calls of kernel/ipc/message.c; Calls has msg_init, msg_pending, msg_peek and msg_broadcast.
--     Chain is about linked lists in the pool, Mail about one queue, Holds about all of the state
--     and the letters in it, Steps about one letter put in or taken; Living is about the processes
--     that wait for messages; Contract, Receive, Start, Quiet, Look, Spread and Everyone are about
--     the calls.
--   Kernel/Pmm: pmm_bitmap with its counters and every call of kernel/mm/pmm.c. Init has pmm_init.
--     Bits is about the bits of the bitmap, Inv about the invariant that ties the bitmap to the
--     counters; Search, Alloc, Free, Reserve, Boot, BootMap and Counts are named for the calls.
--   Kernel/Heap: the block headers, the list of free blocks and the calls of kernel/mm/heap.c over
--     the memory manager. Frees has free_list_add and free_list_remove with their proofs, Calls has
--     heap_init, heap_expand, kmalloc and kfree, More the other calls and heap_validate. Tiles is
--     about the row of blocks, Edits and Rows about writes to headers, Steps and Split about the
--     list and split_block, Settle, Absorb and Merge about coalesce_blocks, Apart about free
--     neighbours, Inv about the invariant, Search, Alloc and Given about finding a block and
--     handing it out, Grow, Malloc, Release, Begin, Trip, Resize, Validate and Twice about the
--     calls.
--   Net/Netbuf: netbuf_t over the pages of the memory manager, every call of net/core/netbuf.c.
--     Valid is about the layout, Contents about the bytes, Pages about allocation, Clone about
--     netbuf_clone. The page of a netbuf_t is cleared in memory as in the source; its fields are a
--     record.
--   Libc: the memory routines of lib/libc/string.c over a store of bytes, a function from
--     addresses. Libc has memcpy, Move has memset and memmove, Compare has memcmp, strlen, strchr
--     and strcmp.
--   Security/Acl: every call of security/acl/acl.c. Access is about acl_check_access, Change about
--     the two setters, Mode about modes as structures and strings.
--   Security/Sha256: security/crypto/sha256.c. Standard is the hash of FIPS 180-4 written out apart
--     from the code, with constants computed from primes, and Block relates the two. Compress is
--     about runs of blocks, Update about sha256_update, Stream about a message hashed in pieces.
--   Security/Random: security/crypto/random.c. State is about xorshift128plus, Range about
--     random_range.
--
-- How the code is read. A C array is a list, and a write past its end is no write. An integer of w
-- bits keeps its wrap-around as % 2 ^ w where the source can reach it. A NULL argument is a Boolean
-- or an Option. A spinlock makes what it guards one step. What the rest of the system does while a
-- process sleeps is a parameter: a function from the state before the sleep to the state after it,
-- one for each sleep. Printing is left out. The headers of the heap are kept apart from the bytes
-- of the payloads, one function of the address for each field, which stands for the memory of the
-- source while headers lie apart from each other and from the payloads in use, as in a heap in
-- order; a write that reaches from one into another is outside the model, and what the bytes hold
-- at a header's address means nothing.
--
-- Fuel. The waiting loops of pipe_read, pipe_write and msg_receive need not end, so they run over a
-- list of what happens during each sleep; a list that ends early leaves the process asleep, which
-- is a result of its own. The loop of pmm_reserve_range goes from page to page and its bound is 2 ^
-- 64, so it has fuel: the number of pages plus one, and the theorem on it shows that it ends before
-- that. The loops of strlen, strchr and strcmp stop at a NUL, so they have fuel, and more than the
-- length of the string is enough. The outer loop of pipe_write copies at least one byte each time,
-- so the number of bytes is enough. The loop of sha256_update over blocks takes 64 bytes a round,
-- so the number of bytes is enough there too. The loops of the heap over the list of free blocks
-- and over the headers have the size of the heap as fuel, which is more than the number of blocks;
-- a call that runs out of it would give no result, and the theorems on kmalloc, kfree, krealloc and
-- heap_init show that there is one. The loop of random_range may reject any number of draws, so its
-- fuel is an argument. The loop of process_exit over the children has fuel for the 32 that a
-- process can have. All other loops are structural.
--
-- Not modelled: the boot loaders and assembly, the drivers (registers and interrupts of devices),
-- the context switch, the page tables, system calls, the file systems, the protocols above the
-- network buffers, the desktop and the applications.
pub mod Base
pub mod Kernel
pub mod Libc
pub mod Net
pub mod Security
