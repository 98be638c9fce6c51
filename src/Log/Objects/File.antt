-- ===== src/Log/Objects/File.antt =====
-- log/File.cpp: the request to open a file.
use logsvc.Common.{ℕ, Option, some, length, if◌then◌else◌}
use logsvc.Common.Map.{same}
use logsvc.Common.Text.{Bytes, codes}
use logsvc.Errors.{FilePath, Result, ok, throw, what, logic_error}
use logsvc.Exec.{Exec, pure, lift, attempt, ◌>>=◌}
use logsvc.Log.Codec.{create_header}
use logsvc.Log.Interfaces.{Deliverable, Executor, ClientExecutor}
use logsvc.Log.Objects.FileHandle as FileHandleObject
use logsvc.Log.Objects.NotAcknowledged
use logsvc.Platform.{Platform}

pub record File : Type 0 where
  pub payload_length : ℕ
  pub filename : FilePath

abbrev pub invalid_path : FilePath
invalid_path = codes "invalid path"

-- File(std::size_t payload_length)
abbrev pub of_length : ℕ → File
of_length payload_length = record { payload_length = payload_length; filename = invalid_path }

-- File(const boost::filesystem::path& fname)
abbrev pub of_path : FilePath → File
of_path fname = record { payload_length = length fname; filename = fname }

unfoldable pub get_name : Platform → File → Result FilePath
get_name P f =
    if same P.path_order f.filename invalid_path
    then throw (logic_error (codes "Cannot get file path from half created File object."))
    else ok f.filename

unfoldable pub get_header : File → Result Bytes
get_header f = create_header (codes "open") (length f.filename)

unfoldable pub get_payload : File → Result Bytes
get_payload f = ok f.filename

unfoldable pub read_payload : File → Bytes → Result File
read_payload f payload = ok (record f { filename = payload })

abbrev pub deliverable : File → Deliverable
deliverable f = record { get_header = get_header f; get_payload = get_payload f }

module _ {S : Type 0} where
  unfoldable pub act : Platform → Executor S → File → Exec S (Option Deliverable)
  act P exec f =
      attempt
        (do
          name ← lift (get_name P f)
          fh ← exec.open_file name
          pure (some (FileHandleObject.deliverable fh)))
        (λ e. pure (some (NotAcknowledged.deliverable (NotAcknowledged.of_reason (what e)))))

  unfoldable pub act_client : ClientExecutor S → File → S → S
  act_client exec f s = s
