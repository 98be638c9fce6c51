-- ===== src/Clients/LocalClient.antt =====
-- logsvccpp/client/LocalClient.cpp
pub mod Connecting
use logsvc.Common.{Bool, true, false, Option, none, some, [], ◌∷◌}
use logsvc.Common.Text.{Bytes}
use logsvc.Clients.{SessionConnection}
use logsvc.Clients.ConnectionFactory.{ConnectionFactory}
use logsvc.Clients.ConnectedLogFile as ConnectedLogFile
use logsvc.Errors.{FilePath, unable_to_connect_error, ok, throw, fault}
use logsvc.Exec.{Exec, pure, raise, crash, attempt, lift, resume, ◌>>=◌, ◌>>◌}
use logsvc.Log.Handles.{ClientHandle}
use logsvc.Log.Interfaces.{ClientExecutor}
use logsvc.Log.Objects.Client
use logsvc.Log.Objects.Disconnect
use logsvc.Log.Receivable.{act_client}

pub record LocalClient : Type 0 where
  pub client_handle : Option ClientHandle
  pub error : Bytes

unfoldable pub set_client_handle : ClientHandle → LocalClient → LocalClient
set_client_handle ch l = record l { client_handle = some ch }

unfoldable pub set_error : Bytes → LocalClient → LocalClient
set_error s l = record l { error = s }

abbrev pub executor : ClientExecutor LocalClient
executor = record {
  set_file_handle = λ fh l. l;
  set_client_handle = set_client_handle;
  set_error = set_error;
  success = λ l. l;
}

module _ {S : Type 0} (c : SessionConnection S) where
  connected : LocalClient → Exec S LocalClient
  connected l = elim l.error [
    | [] ↦ pure l
    | b ∷ bs ↦ raise (unable_to_connect_error (some l.error))
  ]

  -- The client is introduced, and takes what is answered.
  introduce : Client.Client → Exec S LocalClient
  introduce info = do
    reply ← c.send (Client.deliverable info)
    connected (act_client executor reply (record { client_handle = none; error = [] }))

  on_connection : ConnectionFactory S → Bytes → Bool → Exec S LocalClient
  on_connection confac appname true = do
    info ← lift (confac.create_client_info appname)
    introduce info
  on_connection confac appname false = raise (unable_to_connect_error none)

  -- LocalClient(appname, confac)
  unfoldable pub construct : ConnectionFactory S → Bytes → Exec S LocalClient
  unfolding connected introduce on_connection
  construct confac appname = do
    connection ← confac.create_session
    on_connection confac appname connection

  disconnect : Option ClientHandle → Exec S (Unit {0})
  disconnect none = crash
  disconnect (some ch) =
      attempt (do reply ← c.send (Disconnect.deliverable (Disconnect.of_handle ch)); pure tt)
        (λ e. pure tt)

  -- ~LocalClient()
  unfoldable pub destroy : LocalClient → Exec S (Unit {0})
  unfolding disconnect
  destroy l = disconnect l.client_handle

  unfoldable pub open_remote_file : FilePath → Exec S ConnectedLogFile.ConnectedLogFile
  open_remote_file filename = ConnectedLogFile.construct c filename
