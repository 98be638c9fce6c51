-- ===== src/Log/Interfaces.antt =====
-- The interfaces of log/: Deliverable.h, Executor.h and ClientExecutor.h. Their implementations are
-- the protocol objects, the daemon's session, and the client's connection and files.
use logsvc.Common.Text.{Bytes}
use logsvc.Errors.{FilePath, Result}
use logsvc.Exec.{Exec}
use logsvc.Log.Handles.{FileHandle, ClientHandle}

-- What can be sent. The client's `send` and the daemon's session ask for the header, then the
-- payload.
pub record Deliverable : Type 0 where
  pub get_header : Result Bytes
  pub get_payload : Result Bytes

-- What a request acts on.
pub record Executor (S : Type 0) : Type 0 where
  pub open_file : FilePath → Exec S FileHandle
  pub close_file : FileHandle → Exec S (Unit {0})
  pub write_message : FileHandle → Bytes → Exec S (Unit {0})
  pub set_client_info : Bytes → Bytes → Exec S ClientHandle
  pub disconnect_client : ClientHandle → Exec S (Unit {0})

-- What a reply acts on.
pub record ClientExecutor (S : Type 0) : Type 0 where
  pub set_file_handle : FileHandle → S → S
  pub set_client_handle : ClientHandle → S → S
  pub set_error : Bytes → S → S
  pub success : S → S
