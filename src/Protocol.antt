-- ===== src/Protocol.antt =====
-- catlabel/protocol: the wire formats of the printer families.
pub mod Family
pub mod Packet
pub mod Replies
pub mod Niimbot
pub mod Steps
pub mod Plan
pub mod Commands
pub mod Encoding
