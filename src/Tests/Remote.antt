-- ===== src/Tests/Remote.antt =====
-- A client that opens a log and writes a line, with the daemon at the other end.
use logsvc.Common.{◌≡◌, refl, true, false, some, [], arith}
use logsvc.Common.Map.{same}
use logsvc.Common.Text.{codes, bytes_lt}
use logsvc.Clients.ConnectedLogFile.{OnConnection, construct, writeln}
use logsvc.Daemon.RealSession.{State}
use logsvc.Daemon.RealSession.Invariant.{logged}
use logsvc.Daemon.SocketSession as SocketSession
use logsvc.Daemon.SocketSession.{SocketSession}
use logsvc.Daemon.World.{LogFile}
use logsvc.Errors.{ok}
use logsvc.Log.Handles.{file_handle_of}
use logsvc.Log.Objects.File
use logsvc.Log.Wire.{IsPlain}
use logsvc.Remote.{joined}
use logsvc.Remote.Logging.{open_logs}
use logsvc.Tests.{stand_in}
use logsvc.Tests.Daemon.{first_path, fresh_state, opened_state, fresh_state-IsSound, opens_first}

abbrev new_connection : SocketSession (State stand_in)
new_connection = SocketSession.construct fresh_state

one-IsPlain : IsPlain 1
one-IsPlain = record {
  small = omega arith;
  low0 = omega arith;
  low1 = omega arith;
  low2 = omega arith;
}

not_the_default : same stand_in.path_order first_path File.invalid_path ≡ false
unfolding same bytes_lt
not_the_default = refl

open_logs_example :
    (log : OnConnection (SocketSession (State stand_in))) × (o : LogFile) × (construct
        (joined stand_in)
        first_path
        new_connection
      ≡ (ok log.log_file, log.connection))
    × (log.log_file
        ≡ record { file = some (file_handle_of 1); error_string = []; file_path = first_path })
    × (same stand_in.path_order o.filepath first_path ≡ true)
    × ((writeln (joined stand_in) (codes "hello") log).0 ≡ ok tt)
    × ((writeln (joined stand_in) (codes "hello") log).1.connection.executor
        ≡ logged stand_in opened_state o (codes "hello"))
open_logs_example =
    open_logs stand_in new_connection first_path 1 (codes "hello") opened_state refl refl
      fresh_state-IsSound not_the_default (omega arith) (omega arith) opens_first one-IsPlain
      (omega arith)
