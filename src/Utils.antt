-- ===== src/Utils.antt =====
-- network/utils.rs and network/const_vb.rs, in the children: ids, confusion and jitter, writing a
-- relay message, the length prefix of a payload, and forwarding between the streams of a session.
pub mod Ids
pub mod Confusion
pub mod Write
pub mod Payload
pub mod Forward
pub mod Keeping
pub mod Framing
pub mod Sending
pub mod Reading
pub mod Limit
pub mod Substream
pub mod ReadBack
