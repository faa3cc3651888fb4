-- ===== src/Paging.antt =====
-- kernel/memory/paging.c: page allocation and virtual memory.
pub mod Alloc
pub mod Memory
pub mod Table
pub mod Process
pub mod Reserve
pub mod Pages
pub mod Translate
mod Tests
