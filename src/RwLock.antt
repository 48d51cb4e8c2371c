-- ===== src/RwLock.antt =====
-- The readers-writer locks of threads-sema/rwlock*.cpp.
pub mod LightSwitch
pub mod Starvation
pub mod Turnstile
pub mod WriterPriority
