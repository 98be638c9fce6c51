-- ===== src/Clients.antt =====
-- logsvccpp/: the client library, over a connection that answers each request.
pub mod ConnectedLogFile
pub mod LocalClient
pub mod OutStream
pub mod DefaultConnection
pub mod ConnectionFactory
pub mod HostConnectionFactory
pub mod Host
pub mod Interface
pub mod Programs
use logsvc.Exec.{Exec}
use logsvc.Log.Interfaces.{Deliverable}
use logsvc.Log.Receivable.{Receivable}

-- client::SessionConnection: `send`, with the wait for its future, which throws a SocketError where
-- the connection fails.
pub record SessionConnection (S : Type 0) : Type 0 where
  pub send : Deliverable → Exec S Receivable
