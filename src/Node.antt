-- ===== src/Node.antt =====
-- network/node.rs, the operations of a Node, in the children: waiting for relay streams, opening and
-- closing sessions, and the requests that wait for an ack.
pub mod Streams
pub mod Sessions
pub mod Requests
pub mod Waiting
pub mod Closing
pub mod Waiters
pub mod Opening
