-- ===== src/Clients/ConnectionFactory.antt =====
-- logsvccpp/client/ConnectionFactory.h: where a client gets its connection from.
use logsvc.Common.{Bool}
use logsvc.Common.Text.{Bytes}
use logsvc.Errors.{Result}
use logsvc.Exec.{Exec}
use logsvc.Log.Objects.Client

pub record ConnectionFactory (S : Type 0) : Type 0 where
  -- whether there is a connection: a null pointer is none; a call that never returns is a fault
  pub create_session : Exec S Bool
  pub create_client_info : Bytes → Result Client.Client
