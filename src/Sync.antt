-- ===== src/Sync.antt =====
-- kernel/src/sync: the locks of the kernel.
pub mod Blocking
pub mod Swap
pub mod Interrupts
