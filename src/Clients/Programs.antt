-- ===== src/Clients/Programs.antt =====
-- The programs of systest/ that use the client library, loglinetofile.cpp, logviastream.cpp and
-- cloglinetofile.c, and the class PyLog of logsvcpy/logsvcpy.cpp. An exception that main does not catch
-- is the result `throw`.
pub mod Streamed
use logsvc.Common.{ℕ, Option, none, some, List, [], ◌∷◌, length}
use logsvc.Common.Text.{Bytes, codes}
use logsvc.Clients.{SessionConnection}
use logsvc.Clients.ConnectedLogFile as ConnectedLogFile
use logsvc.Clients.ConnectedLogFile.{Log, OnConnection, logln}
use logsvc.Clients.Host as Host
use logsvc.Clients.Host.{OnHost, Factories}
use logsvc.Clients.Interface.{
  LogPointer, HostPointer, log_of, destroy_client, logsvc_connect_host, logsvc_open, logsvc_logln,
  logsvc_close, logsvc_disconnect, follow,
}
use logsvc.Clients.LocalClient as LocalClient
use logsvc.Clients.OutStream as OutStream
use logsvc.Clients.OutStream.{LogBuf, xsputn, sync}
use logsvc.Errors.{FilePath, Result, ok, throw, fault, map_ok}
use logsvc.Exec.{Exec, pure, attempt, resume, ◌>>=◌, ◌>>◌}

module _ {S : Type 0} (c : SessionConnection S) (connection_factory : Factories S) where
  -- The end of main: the host is destroyed, after its log.
  end_host :
      Option LocalClient.LocalClient → Result (Unit {0}) × OnConnection S → Result (Unit {0}) × S
  end_host client (ok u, st) = destroy_client c connection_factory client st.connection
  end_host client (throw e, st) = (throw e, st.connection)
  end_host client (fault, st) = (fault, st.connection)

  use_log : Exec (OnConnection S) (Unit {0}) → Result Log × OnHost S → Result (Unit {0}) × S
  use_log body (ok log, st) = end_host st.host.local_client (
      (do body; ConnectedLogFile.destroy c) (record { connection = st.connection; log_file = log }))
  use_log body (throw e, st) = (throw e, st.connection)
  use_log body (fault, st) = (fault, st.connection)

  -- logsvc::Host h(appname); logsvc::Log log(filename, h); …
  with_log : Bytes → FilePath → Exec (OnConnection S) (Unit {0}) → Exec S (Unit {0})
  with_log appname filename body s = use_log body (
      log_of c connection_factory filename
        (record { connection = s; host = Host.construct appname (codes "localhost") }))

  -- for (int i = 2; i < argc; ++i) log.logln(argv[i]);
  logln_each : List Bytes → Exec (OnConnection S) (Unit {0})
  logln_each [] = pure tt
  logln_each (line ∷ lines) = do logln c line; logln_each lines

  unfoldable pub loglinetofile : List Bytes → Exec S (Unit {0})
  unfolding with_log use_log end_host logln_each
  loglinetofile (program ∷ filename ∷ line ∷ lines) =
      with_log (codes "loglinetofile") filename (logln_each (line ∷ lines))
  loglinetofile _ = pure tt

  put : Bytes → LogBuf S → LogBuf S
  put s b = xsputn s (length s) b

  -- for (int i = 3; i < argc; ++i) ost << " " << argv[i];
  put_each : List Bytes → LogBuf S → LogBuf S
  put_each [] b = b
  put_each (word ∷ words) b = put_each words (put word (put (codes " ") b))

  -- An ostream keeps the exceptions of its buffer to itself.
  flush : Exec (LogBuf S) (Unit {0})
  flush = attempt (sync c) (λ e. pure tt)

  unfoldable pub stream_words : Bytes → List Bytes → Exec (OnConnection S) (Unit {0})
  unfolding put put_each flush
  stream_words word words st =
      let (r, b) = flush (put_each words (put word (OutStream.construct st))) in (r, b.log)

  unfoldable pub logviastream : List Bytes → Exec S (Unit {0})
  unfolding with_log use_log end_host
  logviastream (program ∷ filename ∷ word ∷ words) =
      with_log (codes "logviastream") filename (stream_words word words)
  logviastream _ = pure tt

-- What main of cloglinetofile returns: -1, -2, -3 and 0.
pub data ExitCode : Type 0 where
  usage : ExitCode
  no_host : ExitCode
  no_log : ExitCode
  success : ExitCode

module _ {S : Type 0} (c : SessionConnection S) (connection_factory : Factories S) where
  -- for (i = 2; i < argc; ++i) logsvc_logln(log, argv[i]);
  logsvc_logln_each : List Bytes → Exec (LogPointer S) (Unit {0})
  logsvc_logln_each [] = pure tt
  logsvc_logln_each (line ∷ lines) = do
    λ logfile. logsvc_logln c connection_factory logfile line
    logsvc_logln_each lines

  host_connection : S → HostPointer S → S
  host_connection s none = s
  host_connection s (some st) = st.connection

  log_connection : S → LogPointer S → S
  log_connection s none = s
  log_connection s (some st) = st.connection

  -- logsvc_disconnect(host), on the connection as the log has left it
  disconnect_after : OnHost S → Result (Unit {0}) × LogPointer S → Result ExitCode × S
  disconnect_after st (ok u, logfile) =
      let s = log_connection st.connection logfile in
      let (r, host) =
        logsvc_disconnect c connection_factory (some (record st { connection = s })) in
      (map_ok (λ u. success) r, host_connection s host)
  disconnect_after st (throw e, logfile) = (throw e, log_connection st.connection logfile)
  disconnect_after st (fault, logfile) = (fault, log_connection st.connection logfile)

  log_to : List Bytes → S → Result (Option Log) × HostPointer S → Result ExitCode × S
  log_to lines s (ok (some log), some st) = disconnect_after st (
      (do logsvc_logln_each lines; logsvc_close c connection_factory)
        (some (record { connection = st.connection; log_file = log })))
  log_to lines s (ok (some log), none) = (fault, s)
  log_to lines s (ok none, host) = (ok no_log, host_connection s host)
  log_to lines s (throw e, host) = (throw e, host_connection s host)
  log_to lines s (fault, host) = (fault, host_connection s host)

  open_on : HostPointer S → FilePath → List Bytes → Exec S ExitCode
  open_on none filename lines s = (ok no_host, s)
  open_on (some st) filename lines s =
      log_to lines s (logsvc_open c connection_factory filename (some st))

  unfoldable pub cloglinetofile : List Bytes → Exec S ExitCode
  unfolding logsvc_logln_each host_connection log_connection disconnect_after log_to open_on
  cloglinetofile (program ∷ filename ∷ line ∷ lines) s =
      open_on
        (logsvc_connect_host c connection_factory (codes "localhost") (codes "cloglinetofile") s)
        filename (line ∷ lines) s
  cloglinetofile _ s = (ok usage, s)

-- PyLog
pub record PyLog (S : Type 0) : Type 0 where
  pub log : Option (OnConnection S)

module _ {S : Type 0} (c : SessionConnection S) where
  -- void logln(const std::string& line) { log->logln(line); }
  unfoldable pub py_logln : Bytes → Exec (PyLog S) (Unit {0})
  py_logln line p = elim p.log [
    | none ↦ (fault, p)
    | some st ↦ let (r, after) = logln c line st in (r, record { log = some after })
  ]

  -- void close() { log.reset(); }
  unfoldable pub py_close : Exec (PyLog S) (Unit {0})
  py_close p = elim p.log [
    | none ↦ (ok tt, p)
    | some st ↦ let (r, after) = ConnectedLogFile.destroy c st in (r, record { log = none })
  ]
