-- ===== src/Ipc.antt =====
-- kernel/ipc/mutex.c and sem.c: the recursive mutex and the counting semaphore, over the scheduler.
-- Interrupts are off in each function, which is therefore one step. A wait list is the sequence of
-- its tasks, first to last.
pub mod Relock
pub mod Mutex
pub mod Sem
mod Tests
