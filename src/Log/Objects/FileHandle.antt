-- ===== src/Log/Objects/FileHandle.antt =====
-- log/FileHandle.cpp as a protocol object.
use logsvc.Common.{Option, none, ◌%◌, ◌^◌}
use logsvc.Common.Text.{Bytes, codes}
use logsvc.Errors.{Result, ok, ◌>>=◌}
use logsvc.Exec.{Exec, pure}
use logsvc.Log.Codec.{create_header, encode_32bit_int, decode_32bit_int}
use logsvc.Log.Handles.{FileHandle}
use logsvc.Log.Interfaces.{Deliverable, Executor, ClientExecutor}

unfoldable pub get_header : FileHandle → Result Bytes
get_header h = create_header (codes "filh") 4

unfoldable pub get_payload : FileHandle → Result Bytes
get_payload h = encode_32bit_int h.fh

-- The number is stored in an `unsigned int`.
unfoldable pub read_payload : FileHandle → Bytes → Result FileHandle
read_payload h payload = do
  decoded ← decode_32bit_int payload
  ok (record h { fh = decoded % 2 ^ 32 })

abbrev pub deliverable : FileHandle → Deliverable
deliverable h = record { get_header = get_header h; get_payload = get_payload h }

module _ {S : Type 0} where
  unfoldable pub act : Executor S → FileHandle → Exec S (Option Deliverable)
  act exec h = pure none

  unfoldable pub act_client : ClientExecutor S → FileHandle → S → S
  act_client exec h s = exec.set_file_handle h s
