-- ===== src/Tests/Daemon.antt =====
-- A session that opens two files, writes, closes and disconnects.
pub mod Connection
pub mod Initiator
pub mod Server
pub mod Clock
use logsvc.Common.{
  ℕ, ◌≡◌, ◌≢◌, refl, ◌<◌, ◌^◌, ◌+◌, ◌⊎◌, inl, inr, Bool, true, false, Option, none, some, List, [],
  ◌∷◌, ◌++◌, length, get_elem?, arith,
}
use logsvc.Common.Map.{find, same, insert, assign, erase}
use logsvc.Common.Text.{Bytes, codes, bytes_eq, bytes_lt}
use logsvc.Daemon.Collection as Collection
use logsvc.Daemon.Collection.Growth.{IsCollected}
use logsvc.Daemon.LogFile as LogFile
use logsvc.Daemon.RealSession.{
  RealSession, State, open_file, get_filehandle_for_path, open_file_if_necessary, write_message,
  close_file, get_timestamp, disconnect_client, set_client_info, invalid_file_handle,
  wrong_client_handle, construct,
}
use logsvc.Daemon.RealSession.Endings.{
  Closes, Says, close_file_lem, disconnect_client_lem, construct-IsSound,
}
use logsvc.Daemon.RealSession.Invariant.{IsValid, IsSound, logged}
use logsvc.Daemon.RealSession.Promises.{
  reopen_lem, distinct_lem, open-write_lem, write_lem, open_file-Opened,
}
use logsvc.Daemon.RealSession.Requests.{
  Request, opens, closes, writes, introduces, disconnects, perform, performs, KeepsAll,
  performs-KeepsAll,
}
use logsvc.Daemon.TimestampFactory as TimestampFactory
use logsvc.Daemon.World.{World, LogFile}
use logsvc.Errors.{FilePath, Result, ok, throw}
use logsvc.Log.Handles.{
  FileHandle, file_handle_of, file_handle_lt, client_handle_of, client_handle_eq,
}
use logsvc.Tests.{stand_in}

abbrev pub first_path : FilePath
first_path = codes "/var/a.log"

abbrev pub second_path : FilePath
second_path = codes "/var/b.log"

abbrev pub empty_world : World stand_in
empty_world = record { disk = []; readings = 0; objects = []; collection = []; handle_counter = 0 }

abbrev pub fresh_state : State stand_in
fresh_state = record {
  session = record {
    file_handle_counter = 1;
    open_filehandles = [];
    open_files = [];
    client_name = [];
    client_address = [];
    client_handle = client_handle_of 1;
  };
  world = record empty_world { handle_counter = 1 };
}

empty_world-IsCollected : IsCollected stand_in empty_world
unfolding find
empty_world-IsCollected = record { collected = λ p f h. cc }

pub fresh_state-IsSound : IsSound stand_in fresh_state
unfolding find
fresh_state-IsSound = record {
  valid = record {
    counter_pos = omega arith;
    handles_below = λ p fh h. cc;
    handles_distinct = λ p q fh gh h k e. cc;
    files_below = λ fh f h. cc;
    files_live = λ fh f h. cc;
    files_located = λ p fh a o h k there. cc;
  };
  shared = record { collected = λ p f h. cc };
}

abbrev pub opened_state : State stand_in
opened_state = (open_file stand_in first_path fresh_state).1

pub opens_first : open_file stand_in first_path fresh_state ≡ (ok (file_handle_of 1), opened_state)
unfolding open_file get_filehandle_for_path open_file_if_necessary write_message get_timestamp
    TimestampFactory.get_timestamp TimestampFactory.generate Collection.open_file Collection.lock
    LogFile.write LogFile.allocate LogFile.construct find insert assign same bytes_eq file_handle_lt
opens_first = refl

-- What a client may do in between.
abbrev requests : List Request
requests =
    introduces (codes "test") (codes "127.0.0.1")
    ∷ writes (file_handle_of 1) (codes "hello")
    ∷ closes (file_handle_of 1)
    ∷ []

abbrev later_state : State stand_in
later_state = performs stand_in requests opened_state

performs-KeepsAll_example : KeepsAll stand_in requests fresh_state
performs-KeepsAll_example =
    performs-KeepsAll stand_in requests fresh_state fresh_state-IsSound (omega arith)

there_later : stand_in.exists later_state.world.disk first_path ≡ ok true
unfolding open_file get_filehandle_for_path open_file_if_necessary write_message get_timestamp
    TimestampFactory.get_timestamp TimestampFactory.generate Collection.open_file Collection.lock
    LogFile.write LogFile.allocate LogFile.construct find insert assign same bytes_eq file_handle_lt
    LogFile.release performs perform close_file set_client_info erase bytes_lt
there_later = refl

reopen_example : (open_file stand_in first_path later_state).0 ≡ ok (file_handle_of 1)
reopen_example =
    reopen_lem stand_in first_path (file_handle_of 1) fresh_state opened_state requests true
      fresh_state-IsSound (omega arith) opens_first there_later

abbrev second_state : State stand_in
second_state = (open_file stand_in second_path opened_state).1

opens_second :
    open_file stand_in second_path (performs stand_in [] opened_state)
    ≡ (ok (file_handle_of 2), second_state)
unfolding open_file get_filehandle_for_path open_file_if_necessary write_message get_timestamp
    TimestampFactory.get_timestamp TimestampFactory.generate Collection.open_file Collection.lock
    LogFile.write LogFile.allocate LogFile.construct find insert assign same bytes_eq bytes_lt
    file_handle_lt performs
opens_second = refl

distinct_example : (file_handle_of 1).fh ≢ (file_handle_of 2).fh
unfolding same bytes_lt
distinct_example =
    distinct_lem stand_in first_path second_path (file_handle_of 1) (file_handle_of 2) fresh_state
      opened_state second_state [] fresh_state-IsSound (omega arith) opens_first opens_second refl

write_example :
    (write_message stand_in (file_handle_of 1) (codes "bye") later_state
      ≡ (throw invalid_file_handle, later_state))
    ⊎ ((o : LogFile) × (same stand_in.path_order o.filepath first_path ≡ true)
        × (write_message stand_in (file_handle_of 1) (codes "bye") later_state
            ≡ (ok tt, logged stand_in later_state o (codes "bye"))))
write_example =
    write_lem stand_in first_path (file_handle_of 1) (codes "bye") fresh_state opened_state requests
      fresh_state-IsSound (omega arith) opens_first

pub opened_state-IsSound : IsSound stand_in opened_state
opened_state-IsSound =
    (open_file-Opened stand_in first_path (file_handle_of 1) fresh_state opened_state
      fresh_state-IsSound (omega arith) opens_first).sound

close_file_example : Closes stand_in (file_handle_of 1) (codes "bye") opened_state
close_file_example =
    close_file_lem stand_in (file_handle_of 1) (codes "bye") opened_state opened_state-IsSound

disconnect_client_example :
    ((client_handle_eq (client_handle_of 1) opened_state.session.client_handle ≡ true)
      × (st' : State stand_in) × (disconnect_client stand_in (client_handle_of 1) opened_state
          ≡ (ok tt, st'))
      × (st'.session ≡ opened_state.session)
      × Says stand_in
          (codes "Disconnected from logsvc daemon.")
          opened_state.session.open_files
          opened_state
          st')
    ⊎ ((client_handle_eq (client_handle_of 1) opened_state.session.client_handle ≡ false)
        × (disconnect_client stand_in (client_handle_of 1) opened_state
            ≡ (throw wrong_client_handle, opened_state)))
disconnect_client_example =
    disconnect_client_lem stand_in (client_handle_of 1) opened_state opened_state-IsSound

construct-IsSound_example :
    (s : RealSession) × (w' : World stand_in) × (construct stand_in empty_world ≡ (ok s, w'))
    × IsSound stand_in (record { session = s; world = w' })
    × ((p : FilePath) → find stand_in.path_order p s.open_filehandles ≡ none)
construct-IsSound_example = construct-IsSound stand_in empty_world empty_world-IsCollected
