-- ===== src/Kernel.antt =====
-- The kernel's core: processes, the scheduler, the wait arrays of its IPC, pipes, messages,
-- physical memory, the
-- heap.
pub mod Process
pub mod Scheduler
pub mod WaitQueue
pub mod Pipe
pub mod Message
pub mod Pmm
pub mod Heap
