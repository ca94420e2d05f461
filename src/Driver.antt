-- ===== src/Driver.antt =====
-- kernel/src/driver: devices and kernel objects behind file descriptors.
pub mod Pipe
pub mod PipeTable
pub mod FdTable
pub mod RecordLocks
