-- ===== src/Clients/ConnectedLogFile.antt =====
-- logsvccpp/client/ConnectedLogFile.cpp, and logsvccpp/Log.cpp, whose one member is such a file.
pub mod Replies
use logsvc.Common.{
  ℕ, ◌≡◌, ◌≢◌, refl, ◌∙◌, ap, sym, subst, Bool, true, false, ◌⊎◌, inl, inr, Option, none, some,
  List, [], ◌∷◌, if◌then◌else◌,
}
use logsvc.Common.Text.{Bytes}
use logsvc.Clients.{SessionConnection}
use logsvc.Errors.{FilePath, Exception, open_file_error, file_write_error, Result, ok, throw, fault}
use logsvc.Exec.{Exec, pure, raise, crash, modify, resume, handle, ◌>>=◌, ◌>>◌}
use logsvc.Log.Handles.{FileHandle}
use logsvc.Log.Interfaces.{ClientExecutor}
use logsvc.Log.Objects.CloseFile
use logsvc.Log.Objects.File
use logsvc.Log.Objects.Message
use logsvc.Log.Receivable.{Receivable, act_client, file_handle, not_acknowledged}
use logsvc.Log.Objects.FileHandle as FileHandleObject
use logsvc.Log.Objects.NotAcknowledged

pub record ConnectedLogFile : Type 0 where
  pub file : Option FileHandle
  pub error_string : Bytes
  pub file_path : FilePath

-- A Log is the file that it owns.
abbrev pub Log : Type 0
Log = ConnectedLogFile

unfoldable pub set_file_handle : FileHandle → ConnectedLogFile → ConnectedLogFile
set_file_handle fh f = record f { file = some fh }

unfoldable pub set_error : Bytes → ConnectedLogFile → ConnectedLogFile
set_error error f = record f { error_string = error }

unfoldable pub success : ConnectedLogFile → ConnectedLogFile
success f = f

-- The file as what a reply acts on. A client handle is ignored (set_client_handle in the header).
abbrev pub executor : ClientExecutor ConnectedLogFile
executor = record {
  set_file_handle = set_file_handle;
  set_client_handle = λ ch f. f;
  set_error = set_error;
  success = success;
}

-- A file, and the state of its connection.
pub record OnConnection (S : Type 0) : Type 0 where
  pub connection : S
  pub log_file : ConnectedLogFile

module _ {S : Type 0} (c : SessionConnection S) where
  opened : FilePath → ConnectedLogFile → Exec S ConnectedLogFile
  opened path f = elim f.error_string [
    | [] ↦ pure f
    | b ∷ bs ↦ raise (open_file_error path f.error_string)
  ]

  -- ConnectedLogFile(connection, path)
  unfoldable pub construct : FilePath → Exec S ConnectedLogFile
  unfolding opened
  construct path = do
    reply ← c.send (File.deliverable (File.of_path path))
    let f = act_client executor reply (record { file = none; error_string = []; file_path = path })
    opened path f

  -- connection.send(…), on the state with the file
  send_from : (S → Result Receivable × S) → Exec (OnConnection S) Receivable
  send_from m st = let (r, s) = m st.connection in (r, record st { connection = s })

  acted : Receivable → Exec (OnConnection S) (Unit {0})
  acted reply = modify λ st. record st { log_file = act_client executor reply st.log_file }

  -- if (!error_string.empty()) { … std::swap(…); throw FileWriteError(…); }
  complain : Bytes → Exec (OnConnection S) (Unit {0})
  complain [] = pure tt
  complain (b ∷ bs) = λ st. (
    throw (file_write_error st.log_file.file_path st.log_file.error_string),
    record st { log_file = record st.log_file { error_string = [] } },
  )

  write_on : Option FileHandle → Bytes → Exec (OnConnection S) (Unit {0})
  write_on none message = crash
  write_on (some fh) message = do
    reply ← send_from (c.send (Message.deliverable (Message.of_text message fh)))
    acted reply
    λ st. complain st.log_file.error_string st

  unfoldable pub writeln : Bytes → Exec (OnConnection S) (Unit {0})
  unfolding write_on send_from acted complain
  writeln message st = write_on st.log_file.file message st

  -- Log::logln
  unfoldable pub logln : Bytes → Exec (OnConnection S) (Unit {0})
  logln line = writeln line

  -- An exception that leaves a destructor ends the process.
  close_on : Option FileHandle → Exec (OnConnection S) (Unit {0})
  close_on none st = (ok tt, st)
  close_on (some fh) st =
      handle (λ e. crash)
        ((do
          reply ← send_from (c.send (CloseFile.deliverable (CloseFile.of_handle fh)))
          acted reply)
          st)

  -- ~ConnectedLogFile()
  unfoldable pub destroy : Exec (OnConnection S) (Unit {0})
  unfolding close_on send_from acted
  destroy st = close_on st.log_file.file st
