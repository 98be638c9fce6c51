-- ===== src/Clients/Host.antt =====
-- logsvccpp/Host.cpp: a host keeps the one client through which its files are opened, over any factory
-- of connections.
pub mod OneClient
use logsvc.Common.{Option, none, some}
use logsvc.Common.Text.{Bytes, codes}
use logsvc.Clients.{SessionConnection}
use logsvc.Clients.ConnectionFactory.{ConnectionFactory}
use logsvc.Clients.ConnectedLogFile.{ConnectedLogFile}
use logsvc.Clients.LocalClient as LocalClient
use logsvc.Errors.{FilePath, ok}
use logsvc.Exec.{Exec, ◌>>=◌}

pub record Host : Type 0 where
  pub appname : Bytes
  pub hostname : Bytes
  pub local_client : Option LocalClient.LocalClient

-- Host(appname, hostname)
abbrev pub construct : Bytes → Bytes → Host
construct appname hostname = record { appname = appname; hostname = hostname; local_client = none }

-- A host, and the state of the connection of its client.
pub record OnHost (S : Type 0) : Type 0 where
  pub connection : S
  pub host : Host

-- What get_connected_client makes of a hostname and a local address.
abbrev pub Factories : Type 0 → Type 0
Factories S = Bytes → Bytes → ConnectionFactory S

module _ {S : Type 0} (c : SessionConnection S) (connection_factory : Factories S) where
  on_connection : {A : Type 0} → Exec S A → Exec (OnHost S) A
  on_connection m st = let (r, s) = m st.connection in (r, record st { connection = s })

  client_or_new : Option LocalClient.LocalClient → Exec (OnHost S) LocalClient.LocalClient
  client_or_new (some l) st = (ok l, st)
  client_or_new none st =
      (do
        l ← on_connection (
            LocalClient.construct c (connection_factory st.host.hostname (codes "127.0.0.1"))
              st.host.appname)
        λ t. (ok l, record t { host = record t.host { local_client = some l } }))
        st

  unfoldable pub get_connected_client : Exec (OnHost S) LocalClient.LocalClient
  unfolding client_or_new on_connection
  get_connected_client st = client_or_new st.host.local_client st

  unfoldable pub open_remote : FilePath → Exec (OnHost S) ConnectedLogFile
  unfolding on_connection
  open_remote file = do
    l ← get_connected_client
    on_connection (LocalClient.open_remote_file c file)
