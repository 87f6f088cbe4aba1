-- ===== src/Gate.antt =====
-- gate/: the HTTP entry of the system.
pub mod Request
pub mod Front
pub mod Proxy
pub mod Native
pub mod Relay
pub mod Options
pub mod Response
pub mod Upgrade
mod Tests
