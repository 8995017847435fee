-- ===== src/Witnesses.antt =====
-- Concrete runs: a small host, and the theorems applied to it.
mod Setting
mod Circuits
mod Sessions
mod Clients
mod Wires
mod Calls
mod Chats
mod Registrations
mod Handshakes
mod Systems
mod Starts
mod Discoveries
