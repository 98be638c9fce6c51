-- ===== src/Log/Objects/CloseFile.antt =====
-- log/CloseFile.cpp
use logsvc.Common.{ℕ, Option, some}
use logsvc.Common.Text.{Bytes, codes}
use logsvc.Errors.{Result, what, map_ok}
use logsvc.Exec.{Exec, pure, attempt, ◌>>◌}
use logsvc.Log.Codec.{create_header}
use logsvc.Log.Handles.{FileHandle, no_file_handle}
use logsvc.Log.Interfaces.{Deliverable, Executor, ClientExecutor}
use logsvc.Log.Objects.Acknowledged
use logsvc.Log.Objects.NotAcknowledged
use logsvc.Log.Objects.FileHandle as FileHandleObject

pub record CloseFile : Type 0 where
  pub payload_length : ℕ
  pub file_handle : FileHandle

-- CloseFile()
abbrev pub empty : CloseFile
empty = record { payload_length = no_file_handle.payload_length; file_handle = no_file_handle }

-- CloseFile(const FileHandle& fh)
abbrev pub of_handle : FileHandle → CloseFile
of_handle fh = record { payload_length = fh.payload_length; file_handle = fh }

unfoldable pub get_header : CloseFile → Result Bytes
get_header c = create_header (codes "clos") 4

unfoldable pub get_payload : CloseFile → Result Bytes
get_payload c = FileHandleObject.get_payload c.file_handle

unfoldable pub read_payload : CloseFile → Bytes → Result CloseFile
read_payload c payload =
    map_ok (λ h. record c { file_handle = h }) (FileHandleObject.read_payload c.file_handle payload)

abbrev pub deliverable : CloseFile → Deliverable
deliverable c = record { get_header = get_header c; get_payload = get_payload c }

module _ {S : Type 0} where
  unfoldable pub act : Executor S → CloseFile → Exec S (Option Deliverable)
  act exec c =
      attempt
        (do
          exec.close_file c.file_handle
          pure (some (Acknowledged.deliverable Acknowledged.acknowledged)))
        (λ e. pure (some (NotAcknowledged.deliverable (NotAcknowledged.of_reason (what e)))))

  unfoldable pub act_client : ClientExecutor S → CloseFile → S → S
  act_client exec c s = s
