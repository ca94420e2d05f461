-- ===== src/Storage.antt =====
-- kernel/src/driver: the file systems.
pub mod RamFs
