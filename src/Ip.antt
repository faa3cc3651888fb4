-- ===== src/Ip.antt =====
-- kernel/net/ip.c and ip.h: addresses, headers, routes, fragments that are sent and put together.
pub mod Address
pub mod Header
pub mod Fragment
pub mod Input
pub mod Output
pub mod Train
pub mod Order
pub mod Pieces
pub mod Received
pub mod Passed
pub mod Inv
pub mod Safe
pub mod FragIn
pub mod Senders
pub mod Arrivals
pub mod Served
mod Tests
