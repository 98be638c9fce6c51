-- ===== src/Daemon.antt =====
-- logsvc_daemon/: the sessions of the daemon, the log files that they share, and their sockets.
pub mod Timestamp
pub mod World
pub mod TimestampFactory
pub mod LogFile
pub mod Collection
pub mod RealSession
pub mod SocketSession
pub mod Service
pub mod SessionInitiator
pub mod SessionFactory
pub mod Server
