-- ===== src/Log/Objects.antt =====
-- The protocol objects of log/, a module for each class: constructors, `get_header`,
-- `get_payload`, `read_payload` and `act`. AbstractReceivable keeps the length of the payload.
pub mod Acknowledged
pub mod NotAcknowledged
pub mod Client
pub mod ClientHandle
pub mod CloseFile
pub mod Disconnect
pub mod File
pub mod FileHandle
pub mod Message
