-- ===== src/Daemon/World.antt =====
-- What the sessions of one daemon share (logsvc_daemon/DefaultSessionFactory.cpp): the disk, the
-- clock, the log file objects with the count of the pointers that own them, the collection's weak
-- pointers, and the counter of client handles. The daemon runs its handlers one at a time.
use logsvc.Common.{ℕ, ◌+◌, ◌%◌, ◌^◌, Option, List, []}
use logsvc.Common.Map.{Map}
use logsvc.Errors.{FilePath}
use logsvc.Exec.{Exec}
use logsvc.Errors.{ok}
use logsvc.Log.Handles.{ClientHandle, client_handle_of}
use logsvc.Platform.{Platform}

-- A LogFile object, with its number of owning pointers; it is destroyed at 0.
pub record LogFile : Type 0 where
  pub filepath : FilePath
  pub owners : ℕ

-- std::weak_ptr<File> and std::shared_ptr<File>: the number of an object, or null.
abbrev pub Pointer : Type 0
Pointer = Option ℕ

-- The map of weak pointers.
abbrev pub LogFileCollection : Type 0
LogFileCollection = Map FilePath Pointer

-- LogFileCollection()
abbrev pub new_collection : LogFileCollection
new_collection = []

-- Its handle_counter, an `unsigned int`
abbrev pub DefaultClientHandleFactory : Type 0
DefaultClientHandleFactory = ℕ

-- DefaultClientHandleFactory()
abbrev pub new_client_handle_factory : DefaultClientHandleFactory
new_client_handle_factory = 0

pub record World (P : Platform) : Type 0 where
  pub disk : P.Disk
  pub readings : ℕ
  pub objects : List LogFile
  pub collection : LogFileCollection
  pub handle_counter : DefaultClientHandleFactory

-- DefaultClientHandleFactory::generate_client_handle
unfoldable pub generate_client_handle : (P : Platform) → Exec (World P) ClientHandle
generate_client_handle P w =
    let next = (w.handle_counter + 1) % 2 ^ 32 in
    (ok (client_handle_of next), record w { handle_counter = next })
