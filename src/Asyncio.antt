-- ===== src/Asyncio.antt =====
-- asyncio_net/net_asyncio.py: the connection for asyncio. Between two points at which a coroutine waits, a
-- task runs alone, so an action here is the part of a coroutine down to where it waits.
pub mod State
pub mod Cursor
pub mod Reader
pub mod Frame
pub mod Settled
pub mod Run
pub mod Order
pub mod Closed
pub mod Ahead
mod Tests
