-- ===== src/Invariant.antt =====
-- What always holds of the shared maps of a node, and that every task keeps it.
pub mod Updates
pub mod Sessions
pub mod Relaying
pub mod RelayLoop
pub mod Clients
pub mod Peers
pub mod Handlers
pub mod Circuits
pub mod Handshakes
pub mod Sdk
pub mod Loops
