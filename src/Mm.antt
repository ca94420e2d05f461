-- ===== src/Mm.antt =====
-- kernel/src/mm: memory management.
pub mod Bitmap
pub mod Pmm
pub mod Vma
pub mod VmaRegistry
