-- ===== src/ThreadSafe.antt =====
-- The classes of include/ThreadSafe.h: a queue, a set and a deque, whose methods hold a lock while
-- they run.
pub mod TsQueue
pub mod TsSet
pub mod TsDeque
