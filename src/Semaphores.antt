-- ===== src/Semaphores.antt =====
-- threads-sema/: programs on semaphores, any number of threads where the program takes it as an
-- argument; and threads-intro/t1.c, the counter without one.
pub mod Rendezvous
pub mod Throttle
pub mod Binary
pub mod Race
pub mod Zem
pub mod Barrier
pub mod NoStarve
pub mod Dining
mod Tests
