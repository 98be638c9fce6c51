-- ===== src/Tests/Daemon/Server.antt =====
-- A daemon with two clients: the first opens a file, and a second one comes.
use logsvc.Common.{
  ℕ, ◌+◌, ◌≡◌, refl, ◌⊎◌, true, none, some, [], ◌∷◌, ◌++◌, get_elem?, arith, if◌then◌else◌,
}
use logsvc.Common.Map.{find, insert, assign, same, nat_order}
use logsvc.Common.Text.{Bytes, codes, bytes_eq, bytes_lt}
use logsvc.Daemon.Collection as Collection
use logsvc.Daemon.LogFile as LogFile
use logsvc.Daemon.RealSession.{
  RealSession, State, executor, open_file, get_filehandle_for_path, open_file_if_necessary,
  write_message, get_timestamp, invalid_file_handle, destroy,
}
use logsvc.Daemon.RealSession.Counted.{owners_of}
use logsvc.Daemon.RealSession.Invariant.{logged}
use logsvc.Daemon.Server.{
  Server, Step, Reachable, has_accepted, has_completed, started, stepped, construct, handle_accept,
  accept_requested, with_world, without_world, put, connection_lost, shut_down,
}
use logsvc.Daemon.Server.Consistent.{IsConsistent, state_of, accepted, accept_requested-by}
use logsvc.Daemon.Server.Lost.{forgotten_lem}
use logsvc.Daemon.Server.Owned.{all_pointers, session_pointers}
use logsvc.Daemon.Server.Owners.{owners_lem}
use logsvc.Daemon.Server.Lasting.{reached-IsConsistent, delivered_lem}
use logsvc.Daemon.SessionFactory as SessionFactory
use logsvc.Daemon.SessionInitiator as SessionInitiator
use logsvc.Daemon.RealSession as RealSession
use logsvc.Daemon.SocketSession as SocketSession
use logsvc.Daemon.SocketSession.{
  SocketSession, start_listen, async_read, async_write, bytes_received,
}
use logsvc.Daemon.SocketSession.Reachable as Connection
use logsvc.Daemon.TimestampFactory as TimestampFactory
use logsvc.Daemon.World.{LogFile, generate_client_handle}
use logsvc.Errors.{ok, throw}
use logsvc.Log.Codec.{start_seq, create_header, encode_32bit_int}
use logsvc.Log.Codec.RoundTrip.{bytes32}
use logsvc.Log.Factory.Known.{create_known, open_kind}
use logsvc.Log.Handles.{file_handle_of, file_handle_lt}
use logsvc.Log.Objects.File
use logsvc.Log.Objects.FileHandle as FileHandleObject
use logsvc.Log.Receivable.{file, act, get_payload_length, read_payload}
use logsvc.Tests.{stand_in}
use logsvc.Tests.Daemon.{first_path, fresh_state, opened_state}

abbrev silent : Server stand_in
silent = construct stand_in []

-- The first client's connection, which its listener is the initiator of.
abbrev listening : SocketSession RealSession
listening = record {
  has_socket = true;
  current_receivable = none;
  executor = fresh_state.session;
  listeners = (0, tt) ∷ [];
  hears_socket = true;
  calls = async_read 12 ∷ [];
}

abbrev one_client : Server stand_in
one_client = record {
  world = fresh_state.world;
  initiator = record {
    created = 1;
    live_sessions = (0, tt) ∷ [];
    listened_to = (0, tt) ∷ [];
    accepting = 1;
    errors = [];
  };
  sessions = (0, listening) ∷ [];
}

first-Step : Step stand_in silent one_client
unfolding construct handle_accept accept_requested SessionFactory.create_session
    SessionFactory.construct RealSession.construct generate_client_handle
    SocketSession.add_socket_session_listener SocketSession.start_listen
    SessionInitiator.accept_requested insert find
first-Step = has_accepted none 0 refl refl

abbrev open_header : Bytes
open_header = start_seq ++ (codes "open" ++ bytes32 10)

abbrev announced : SocketSession (State stand_in)
announced = record (with_world stand_in fresh_state.world listening) {
  current_receivable = some (file (File.of_length 10));
  calls = async_read 10 ∷ [];
}

header-Completion :
    Connection.Step stand_in
      (executor stand_in)
      (with_world stand_in fresh_state.world listening)
      announced
unfolding bytes_received get_payload_length
header-Completion =
    Connection.has_read [] [] 12 open_header refl refl
      (rw (create_known stand_in open_kind 10 (omega arith)) refl)

abbrev replying : SocketSession (State stand_in)
replying = record announced {
  current_receivable = some (file (File.of_path first_path));
  executor = opened_state;
  calls = async_write (start_seq ++ (codes "filh" ++ bytes32 4) ++ bytes32 1) ∷ [];
}

payload-Completion : Connection.Step stand_in (executor stand_in) announced replying
unfolding bytes_received read_payload File.read_payload act File.act File.get_name
    FileHandleObject.get_header FileHandleObject.get_payload create_header encode_32bit_int
    open_file get_filehandle_for_path open_file_if_necessary write_message get_timestamp
    TimestampFactory.get_timestamp TimestampFactory.generate Collection.open_file Collection.lock
    LogFile.write LogFile.allocate LogFile.construct find insert assign same bytes_eq bytes_lt
    file_handle_lt
payload-Completion = Connection.has_read [] [] 10 first_path refl refl refl

abbrev asking : Server stand_in
asking = put stand_in 0 announced one_client

abbrev answering : Server stand_in
answering = put stand_in 0 replying asking

first_there : find nat_order 0 one_client.sessions ≡ some listening
unfolding find same
first_there = refl

abbrev opened : SocketSession RealSession
opened = without_world stand_in replying

opened_there : find nat_order 0 answering.sessions ≡ some opened
unfolding put assign find same
opened_there = refl

asking_there : find nat_order 0 asking.sessions ≡ some (without_world stand_in announced)
unfolding put assign find same
asking_there = refl

answering-Reachable : Reachable stand_in 3 answering
unfolding put
answering-Reachable =
    stepped 2 asking answering
      (stepped 1 one_client asking (stepped 0 silent one_client (started []) first-Step)
        (has_completed 0 listening announced first_there header-Completion refl))
      (has_completed 0 (without_world stand_in announced) replying asking_there payload-Completion
        refl)

abbrev two_clients : Server stand_in
two_clients =
    accepted stand_in
      (record answering { initiator = record answering.initiator { accepting = 0 } })

two_clients-Reachable : Reachable stand_in 4 two_clients
unfolding put handle_accept
two_clients-Reachable = stepped 3 answering two_clients answering-Reachable (
    has_accepted none 0 refl (
      accept_requested-by stand_in
        (record answering { initiator = record answering.initiator { accepting = 0 } })))

reached-IsConsistent_example : IsConsistent stand_in 4 two_clients
reached-IsConsistent_example =
    reached-IsConsistent stand_in 4 two_clients two_clients-Reachable (omega arith)

still_there : find nat_order 0 two_clients.sessions ≡ some opened
unfolding put assign find same insert
still_there = refl

path_named :
    find stand_in.path_order first_path opened.executor.open_filehandles ≡ some (file_handle_of 1)
unfolding open_file get_filehandle_for_path open_file_if_necessary write_message get_timestamp
    TimestampFactory.get_timestamp TimestampFactory.generate Collection.open_file Collection.lock
    LogFile.write LogFile.allocate LogFile.construct find insert assign same bytes_eq bytes_lt
    file_handle_lt
path_named = refl

delivered_example :
    (write_message stand_in
        (file_handle_of 1)
        (codes "hello")
        (state_of stand_in two_clients.world opened)
      ≡ (throw invalid_file_handle, state_of stand_in two_clients.world opened))
    ⊎ ((o : LogFile) × (same stand_in.path_order o.filepath first_path ≡ true)
        × (write_message stand_in
              (file_handle_of 1)
              (codes "hello")
              (state_of stand_in two_clients.world opened)
            ≡ (
              ok tt,
              logged stand_in (state_of stand_in two_clients.world opened) o (codes "hello"),
            )))
delivered_example =
    delivered_lem stand_in 4 0 two_clients opened first_path (file_handle_of 1) (codes "hello")
      two_clients-Reachable (omega arith) still_there path_named

forgotten_example :
    ((a : ℕ)
      → owners_of (get_elem? (connection_lost stand_in 0 two_clients).world.objects a)
          + session_pointers a opened
        ≡ owners_of (get_elem? two_clients.world.objects a))
    × ((connection_lost stand_in 0 two_clients).world.disk ≡ two_clients.world.disk)
    × ((j : ℕ)
        → find nat_order j (connection_lost stand_in 0 two_clients).sessions
          ≡ (if same nat_order 0 j then none else find nat_order j two_clients.sessions))
    × ((j : ℕ)
        → find nat_order j (connection_lost stand_in 0 two_clients).initiator.live_sessions ≡ (
            if same nat_order 0 j
            then none
            else find nat_order j two_clients.initiator.live_sessions))
forgotten_example =
    forgotten_lem stand_in 4 0 two_clients opened two_clients-Reachable (omega arith) still_there

abbrev first_object : LogFile
first_object = record { filepath = first_path; owners = 1 }

object_there : get_elem? two_clients.world.objects 0 ≡ some first_object
unfolding open_file get_filehandle_for_path open_file_if_necessary write_message get_timestamp
    TimestampFactory.get_timestamp TimestampFactory.generate Collection.open_file Collection.lock
    LogFile.write LogFile.allocate LogFile.construct find insert assign same bytes_eq bytes_lt
    file_handle_lt put
object_there = refl

owners_example :
    (first_object.owners ≡ all_pointers 0 two_clients.sessions)
    × (owners_of (get_elem? (shut_down stand_in two_clients).world.objects 0) ≡ 0)
owners_example =
    owners_lem stand_in 4 0 two_clients first_object two_clients-Reachable (omega arith)
      object_there
