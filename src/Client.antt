-- ===== src/Client.antt =====
-- grpcclient/: the client, its connection pool and its streams.
pub mod Nodes
pub mod Pool
pub mod Stream
pub mod Invoke
pub mod Registry
pub mod Opening
pub mod Custom
mod Tests
