-- ===== src/Pktbuf.antt =====
-- kernel/net/pktbuf.c, pktbuf.h and mblock.c: network packets as chains of 64-byte blocks.
pub mod Store
pub mod Chain
pub mod Header
pub mod Resize
pub mod Access
pub mod Content
pub mod Remove
pub mod Place
pub mod Step
pub mod Read
pub mod Seek
pub mod Make
pub mod Sum
pub mod Taken
pub mod Draw
pub mod Insert
pub mod Front
pub mod Prepend
mod Tests
