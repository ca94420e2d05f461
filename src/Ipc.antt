-- ===== src/Ipc.antt =====
-- Streams inside the kernel.
pub mod TokenPipe
pub mod KernelLog
