-- ===== src/Net.antt =====
-- net.py: the connection and its cursors, from the socket up.
pub mod Socket
pub mod Query
pub mod Response
pub mod World
pub mod Cursor
pub mod Fetch
pub mod Instance
pub mod Open
pub mod Connection
pub mod Setup
