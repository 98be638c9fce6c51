-- ===== src/Tests/Clients.antt =====
-- A client over a connection whose answers are given in advance.
pub mod Connections
pub mod Threads
use logsvc.Common.{ℕ, ◌++◌, true, false, ◌≡◌, refl, some, List, [], ◌∷◌}
use logsvc.Common.Text.{codes}
use logsvc.Clients.{SessionConnection}
use logsvc.Clients.ConnectionFactory.{ConnectionFactory}
use logsvc.Clients.Host as Host
use logsvc.Clients.Host.{OnHost}
use logsvc.Clients.Host.OneClient.{Opens, one_client_lem}
use logsvc.Daemon.SocketSession.{async_write}
use logsvc.Log.Interfaces.{Deliverable}
use logsvc.Tests.{stand_in}
use logsvc.Clients.ConnectedLogFile as ConnectedLogFile
use logsvc.Clients.ConnectedLogFile.{OnConnection, writeln, logln}
use logsvc.Clients.ConnectedLogFile.Replies.{
  refusal, verdict, handle_in, writeln_lem, construct_lem,
}
use logsvc.Clients.LocalClient as LocalClient
use logsvc.Clients.LocalClient.Connecting.{client_handle_in, refused, connect_lem}
use logsvc.Clients.OutStream.{sync}
use logsvc.Clients.OutStream.Lines.{Put, one, many, characters, puts, kept, sync_lem}
use logsvc.Errors.{open_file_error, file_write_error, socket_error, Result, ok, throw}
use logsvc.Log.Handles.{file_handle_of, client_handle_of}
use logsvc.Log.Objects.Client
use logsvc.Log.Objects.NotAcknowledged
use logsvc.Log.Receivable.{Receivable, not_acknowledged, client_handle, file_handle}

abbrev pub answer : List Receivable → Result Receivable × List Receivable
answer [] = (throw (socket_error (codes "closed")), [])
answer (r ∷ rs) = (ok r, rs)

abbrev pub prepared : SessionConnection (List Receivable)
prepared = record { send = λ d answers. answer answers }

abbrev refused_answer : Receivable
refused_answer = not_acknowledged (NotAcknowledged.of_reason (codes "no"))

abbrev open_file : OnConnection (List Receivable)
open_file = record {
  connection = refused_answer ∷ [];
  log_file = record { file = some (file_handle_of 1); error_string = []; file_path = codes "a" };
}

writeln_example :
    ((writeln prepared (codes "hi") open_file).0
      ≡ verdict (file_write_error (codes "a")) tt (refusal refused_answer))
    × ((writeln prepared (codes "hi") open_file).1.log_file.error_string ≡ [])
writeln_example =
    writeln_lem prepared open_file (codes "hi") (file_handle_of 1) refused_answer [] refl refl refl

construct_example :
    ConnectedLogFile.construct prepared (codes "a") (file_handle (file_handle_of 1) ∷ []) ≡ (
      verdict
          (open_file_error (codes "a"))
          (record {
            file = handle_in (file_handle (file_handle_of 1));
            error_string = [];
            file_path = codes "a";
          })
          (refusal (file_handle (file_handle_of 1))),
      [],
    )
construct_example =
    construct_lem prepared (codes "a") (file_handle (file_handle_of 1))
      (file_handle (file_handle_of 1) ∷ []) [] refl

abbrev reachable : ConnectionFactory (List Receivable)
reachable = record {
  create_session = λ s. (ok true, s);
  create_client_info = λ name. ok (Client.of_name name);
}

connect_example :
    LocalClient.construct prepared reachable (codes "me") (client_handle (client_handle_of 1) ∷ [])
    ≡ (
      verdict refused
          (record {
            client_handle = client_handle_in (client_handle (client_handle_of 1));
            error = [];
          })
          (refusal (client_handle (client_handle_of 1))),
      [],
    )
connect_example =
    connect_lem prepared reachable (codes "me") (Client.of_name (codes "me"))
      (client_handle (client_handle_of 1)) (client_handle (client_handle_of 1) ∷ [])
      (client_handle (client_handle_of 1) ∷ []) [] refl refl refl

abbrev new_host : OnHost (List Receivable)
new_host = record {
  connection = client_handle (client_handle_of 1) ∷ file_handle (file_handle_of 1) ∷ [];
  host = Host.construct (codes "me") (codes "host");
}

one_client_example :
    Opens prepared (λ hostname local_ip. reachable) new_host (codes "a") (codes "b" ∷ [])
one_client_example =
    one_client_lem prepared (λ hostname local_ip. reachable) new_host (codes "a") (codes "b" ∷ [])
      refl

abbrev some_puts : List Put
some_puts = many (codes "hello world") 5 ∷ one 33 ∷ []

abbrev after_line : OnConnection (List Receivable)
after_line = (logln prepared (characters some_puts) open_file).1

sync_example : sync prepared (puts prepared some_puts (record { log = open_file; buffer = [] })) ≡ (
  (logln prepared (characters some_puts) open_file).0,
  record {
    log = after_line;
    buffer =
        kept prepared (logln prepared (characters some_puts) open_file).0 (characters some_puts);
  },
)
sync_example =
    sync_lem prepared some_puts open_file after_line
      (logln prepared (characters some_puts) open_file).0 refl
