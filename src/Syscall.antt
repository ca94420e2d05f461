-- ===== src/Syscall.antt =====
-- The system calls.
pub mod Eventfd
pub mod Epoll
