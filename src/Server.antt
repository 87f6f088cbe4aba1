-- ===== src/Server.antt =====
-- grpcserver/: the registry of handlers, and the way of a call through the server.
pub mod Registry
pub mod Wrappers
pub mod Headers
pub mod Handler
pub mod Process
pub mod Buffers
pub mod Options
mod Tests
