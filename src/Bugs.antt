-- ===== src/Bugs.antt =====
-- threads-bugs/: the non-atomic use of a pointer, the deadlock of two locks, and the use of a thread
-- structure before it is there, with the repaired programs.
pub mod Atomicity
pub mod Deadlock
pub mod Ordering
mod Tests
