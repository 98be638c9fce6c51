-- ===== src/Log.antt =====
-- log/: the protocol objects, their encoding, and the interfaces that act on them.
pub mod Codec
pub mod Handles
pub mod Interfaces
pub mod Objects
pub mod Receivable
pub mod Factory
pub mod Wire
pub mod Answers
