-- ===== src/Log/Objects/ClientHandle.antt =====
-- log/ClientHandle.cpp as a protocol object.
use logsvc.Common.{Option, none, ◌%◌, ◌^◌}
use logsvc.Common.Text.{Bytes, codes}
use logsvc.Errors.{Result, ok, ◌>>=◌}
use logsvc.Exec.{Exec, pure}
use logsvc.Log.Codec.{create_header, encode_32bit_int, decode_32bit_int}
use logsvc.Log.Handles.{ClientHandle}
use logsvc.Log.Interfaces.{Deliverable, Executor, ClientExecutor}

unfoldable pub get_header : ClientHandle → Result Bytes
get_header h = create_header (codes "clnh") 4

unfoldable pub get_payload : ClientHandle → Result Bytes
get_payload h = encode_32bit_int h.ch

-- The number is stored in an `unsigned int`.
unfoldable pub read_payload : ClientHandle → Bytes → Result ClientHandle
read_payload h payload = do
  decoded ← decode_32bit_int payload
  ok (record h { ch = decoded % 2 ^ 32 })

abbrev pub deliverable : ClientHandle → Deliverable
deliverable h = record { get_header = get_header h; get_payload = get_payload h }

module _ {S : Type 0} where
  unfoldable pub act : Executor S → ClientHandle → Exec S (Option Deliverable)
  act exec h = pure none

  unfoldable pub act_client : ClientExecutor S → ClientHandle → S → S
  act_client exec h s = exec.set_client_handle h s
