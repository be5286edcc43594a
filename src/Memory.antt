-- ===== src/Memory.antt =====
-- kernel/core/memory.c: physical pages, page tables, the user heap and whole address spaces.
pub mod Alloc
pub mod Table
pub mod User
pub mod Copy
