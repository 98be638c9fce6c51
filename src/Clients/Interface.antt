-- ===== src/Clients/Interface.antt =====
-- logsvcc/: the C interface of the client library, with logsvccpp/Log.cpp behind it. A pointer is null, or
-- has what its `impl` points to and the state of the connection behind it.
pub mod Opens
use logsvc.Common.{Option, none, some}
use logsvc.Common.Text.{Bytes}
use logsvc.Clients.{SessionConnection}
use logsvc.Clients.ConnectedLogFile as ConnectedLogFile
use logsvc.Clients.ConnectedLogFile.{ConnectedLogFile, Log, OnConnection}
use logsvc.Clients.Host as Host
use logsvc.Clients.Host.{OnHost, Factories}
use logsvc.Clients.LocalClient as LocalClient
use logsvc.Errors.{FilePath, Result, ok, fault}
use logsvc.Exec.{Exec, pure, crash, attempt, resume, ◌>>=◌}

-- logsvc_Host*
abbrev pub HostPointer : Type 0 → Type 0
HostPointer S = Option (OnHost S)

-- logsvc_Log*
abbrev pub LogPointer : Type 0 → Type 0
LogPointer S = Option (OnConnection S)

-- A call on what a pointer points to, which is not looked at before it is followed.
abbrev pub follow : {S A : Type 0} → Exec S A → Option S → Result A × Option S
follow m none = (fault, none)
follow m (some st) = let (r, after) = m st in (r, some after)

module _ {S : Type 0} (c : SessionConnection S) (connection_factory : Factories S) where
  -- The constructor of Host only keeps the two names, and does not throw.
  unfoldable pub logsvc_connect_host : Bytes → Bytes → S → HostPointer S
  logsvc_connect_host hostname appname s =
      some (record { connection = s; host = Host.construct appname hostname })

  -- ~Host: the client, if there is one, is destroyed.
  unfoldable pub destroy_client : Option LocalClient.LocalClient → Exec S (Unit {0})
  destroy_client none = pure tt
  destroy_client (some l) = LocalClient.destroy c l

  destroy_host : Exec (OnHost S) (Unit {0})
  destroy_host st =
      let (r, s) = destroy_client st.host.local_client st.connection in
      (r, record st { connection = s })

  unfoldable pub logsvc_disconnect : HostPointer S → Result (Unit {0}) × HostPointer S
  unfolding destroy_host destroy_client
  logsvc_disconnect host = follow destroy_host host

  -- Log(filename, host)
  unfoldable pub log_of : FilePath → Exec (OnHost S) Log
  log_of filename = Host.open_remote c connection_factory filename

  -- try { … return log.release(); } catch (...) { return nullptr; }
  open_or_null : FilePath → Exec (OnHost S) (Option ConnectedLogFile)
  open_or_null filename = attempt (do log ← log_of filename; pure (some log)) (λ e. pure none)

  -- The assert on the host is the first line of the try.
  unfoldable pub logsvc_open :
      FilePath → HostPointer S → Result (Option ConnectedLogFile) × HostPointer S
  unfolding open_or_null
  logsvc_open filename host = follow (open_or_null filename) host

  unfoldable pub logsvc_logln : LogPointer S → Bytes → Result (Unit {0}) × LogPointer S
  logsvc_logln logfile line = follow (ConnectedLogFile.logln c line) logfile

  unfoldable pub logsvc_close : LogPointer S → Result (Unit {0}) × LogPointer S
  logsvc_close logfile = follow (ConnectedLogFile.destroy c) logfile
