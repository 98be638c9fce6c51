-- ===== src/Daemon/RealSession.antt =====
-- logsvc_daemon/RealSession.cpp: the executor of the requests of one client.
pub mod Invariant
pub mod NewHandle
pub mod Opening
pub mod OpenFile
pub mod Closing
pub mod Requests
pub mod Promises
pub mod Endings
pub mod Sharing
pub mod Acting
pub mod Counted
pub mod Counting
use logsvc.Common.{
  ℕ, ◌+◌, ◌%◌, ◌^◌, Bool, Option, none, some, List, [], ◌∷◌, ◌++◌, not, if◌then◌else◌,
}
use logsvc.Common.Map.{Map, find, insert, erase}
use logsvc.Common.Text.{Bytes, codes}
use logsvc.Daemon.Collection as Collection
use logsvc.Daemon.LogFile as LogFile
use logsvc.Daemon.TimestampFactory as TimestampFactory
use logsvc.Daemon.World.{World, Pointer, generate_client_handle}
use logsvc.Errors.{FilePath, Result, ok, throw, fault, quote, runtime_error, Exception}
use logsvc.Exec.{Exec, pure, raise, modify, resume, ◌>>=◌, ◌>>◌}
use logsvc.Log.Handles.{FileHandle, ClientHandle, file_handle_of, handle_order, client_handle_eq}
use logsvc.Log.Interfaces.{Executor}
use logsvc.Platform.{Platform}

pub record RealSession : Type 0 where
  pub file_handle_counter : ℕ
  pub open_filehandles : Map FilePath FileHandle
  pub open_files : Map FileHandle Pointer
  pub client_name : Bytes
  pub client_address : Bytes
  pub client_handle : ClientHandle

-- One session and what it shares with the others.
pub record State (P : Platform) : Type 0 where
  pub session : RealSession
  pub world : World P

abbrev pub invalid_file_handle : Exception
invalid_file_handle = runtime_error (codes "Invalid file handle.")

abbrev pub wrong_client_handle : Exception
wrong_client_handle = runtime_error (codes "Tried to disconnect wrong client handle.")

abbrev pub farewell : Bytes
farewell = codes "Disconnected from logsvc daemon."

-- RealSession(tsfac, ff, clhfac)
unfoldable pub construct : (P : Platform) → Exec (World P) RealSession
construct P = do
  handle ← generate_client_handle P
  pure (record {
    file_handle_counter = 1;
    open_filehandles = [];
    open_files = [];
    client_name = [];
    client_address = [];
    client_handle = handle;
  })

-- The text of one entry of the log.
unfoldable pub log_line : Bytes → Bytes → Bytes → Bytes → Bytes
log_line stamp name address message =
    codes "["
    ++ (stamp
        ++ (codes ":"
            ++ (name ++ (codes ":" ++ (address ++ (codes "] " ++ (message ++ 10 ∷ [])))))))

module _ (P : Platform) where
  -- A call on the shared part.
  abbrev on_world : {A : Type 0} → Exec (World P) A → Exec (State P) A
  on_world m st = let (r, w) = m st.world in (r, record st { world = w })

  -- timestamp_factory.get_timestamp()
  unfoldable pub get_timestamp : Exec (State P) Bytes
  get_timestamp = on_world (TimestampFactory.get_timestamp P (TimestampFactory.construct P))

  write_line : Pointer → Bytes → Exec (State P) (Unit {0})
  write_line none message = raise invalid_file_handle
  write_line (some address) message = do
    stamp ← get_timestamp
    λ st.
        on_world
          (LogFile.write P address
            (log_line stamp st.session.client_name st.session.client_address message))
          st

  unfoldable pub write_message : FileHandle → Bytes → Exec (State P) (Unit {0})
  unfolding write_line
  write_message fh message st =
      let f = P.lookup FileHandle Pointer handle_order fh st.session.open_files none in
      write_line f message st

  known_or_new : Option FileHandle → FilePath → Exec (State P) FileHandle
  known_or_new (some fh) filename st = (ok fh, st)
  known_or_new none filename st =
      let s = st.session in
      let fh = file_handle_of s.file_handle_counter in
      (
        ok fh,
        record st {
          session = record s {
            file_handle_counter = (s.file_handle_counter + 1) % 2 ^ 32;
            open_filehandles = insert P.path_order filename fh s.open_filehandles;
          };
        },
      )

  unfoldable pub get_filehandle_for_path : FilePath → Exec (State P) FileHandle
  unfolding known_or_new
  get_filehandle_for_path filename st =
      known_or_new (find P.path_order filename st.session.open_filehandles) filename st

  open_unless : Option Pointer → FileHandle → FilePath → Exec (State P) (Unit {0})
  open_unless (some f) fh filename = pure tt
  open_unless none fh filename = do
    f ← on_world (Collection.open_file P filename)
    modify λ st. record st {
      session = record st.session {
        open_files = insert handle_order fh (some f) st.session.open_files;
      };
    }

  unfoldable pub open_file_if_necessary : FileHandle → FilePath → Exec (State P) (Unit {0})
  unfolding open_unless
  open_file_if_necessary fh filename st =
      open_unless (find handle_order fh st.session.open_files) fh filename st

  abbrev opened_by : State P → Bytes
  opened_by st =
      codes "Log opened by " ++ (quote ++ (st.session.client_name ++ (quote ++ codes ".")))

  abbrev closed_by : State P → Bytes
  closed_by st =
      codes "Log closed by " ++ (quote ++ (st.session.client_name ++ (quote ++ codes ".")))

  -- write_message(fh, "Log opened by \"" + client_name + "\".")
  write_opened : FileHandle → Exec (State P) (Unit {0})
  write_opened fh st = write_message fh (opened_by st) st

  write_closed : FileHandle → Exec (State P) (Unit {0})
  write_closed fh st = write_message fh (closed_by st) st

  unfoldable pub open_file : FilePath → Exec (State P) FileHandle
  unfolding write_opened
  open_file filename = do
    fh ← get_filehandle_for_path filename
    open_file_if_necessary fh filename
    write_opened fh
    pure fh

  release_pointer : Pointer → World P → World P
  release_pointer none w = w
  release_pointer (some address) w = LogFile.release P address w

  -- if (iter != open_files.end()) open_files.erase(iter);
  erase_found : Option Pointer → FileHandle → State P → State P
  erase_found none fh st = st
  erase_found (some f) fh st = record {
    session = record st.session { open_files = erase handle_order fh st.session.open_files };
    world = release_pointer f st.world;
  }

  unfoldable pub close_file : FileHandle → Exec (State P) (Unit {0})
  unfolding write_closed erase_found release_pointer
  close_file fh = do
    write_closed fh
    modify λ st. erase_found (find handle_order fh st.session.open_files) fh st

  unfoldable pub set_client_info : Bytes → Bytes → Exec (State P) ClientHandle
  set_client_info name address st = (
    ok st.session.client_handle,
    record st { session = record st.session { client_name = name; client_address = address } },
  )

  -- for (auto f : open_files) write_message(f.first, …);
  write_farewells : Map FileHandle Pointer → Exec (State P) (Unit {0})
  write_farewells [] = pure tt
  write_farewells ((fh, f) ∷ files) = do write_message fh farewell; write_farewells files

  unfoldable pub disconnect_client : ClientHandle → Exec (State P) (Unit {0})
  unfolding write_farewells
  disconnect_client client st =
      if not (client_handle_eq client st.session.client_handle)
      then raise wrong_client_handle st
      else write_farewells st.session.open_files st

  release_all : Map FileHandle Pointer → World P → World P
  release_all [] w = w
  release_all ((fh, f) ∷ files) w = release_all files (release_pointer f w)

  -- ~RealSession(): the pointers in open_files are destroyed.
  unfoldable pub destroy : State P → World P
  unfolding release_all release_pointer
  destroy st = release_all st.session.open_files st.world

  -- The session as what a request acts on.
  abbrev pub executor : Executor (State P)
  executor = record {
    open_file = open_file;
    close_file = close_file;
    write_message = write_message;
    set_client_info = set_client_info;
    disconnect_client = disconnect_client;
  }
