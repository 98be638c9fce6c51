-- ===== src/Log/Objects/Acknowledged.antt =====
-- log/Acknowledged.cpp
use logsvc.Common.{ℕ, Option, none, []}
use logsvc.Common.Text.{Bytes, codes}
use logsvc.Errors.{Result, ok}
use logsvc.Exec.{Exec, pure}
use logsvc.Log.Codec.{create_header}
use logsvc.Log.Interfaces.{Deliverable, Executor, ClientExecutor}

pub record Acknowledged : Type 0 where
  pub payload_length : ℕ

abbrev pub acknowledged : Acknowledged
acknowledged = record { payload_length = 0 }

unfoldable pub get_header : Acknowledged → Result Bytes
get_header a = create_header (codes "ackn") 0

unfoldable pub get_payload : Acknowledged → Result Bytes
get_payload a = ok []

unfoldable pub read_payload : Acknowledged → Bytes → Result Acknowledged
read_payload a payload = ok a

abbrev pub deliverable : Acknowledged → Deliverable
deliverable a = record { get_header = get_header a; get_payload = get_payload a }

module _ {S : Type 0} where
  unfoldable pub act : Executor S → Acknowledged → Exec S (Option Deliverable)
  act exec a = pure none

  unfoldable pub act_client : ClientExecutor S → Acknowledged → S → S
  act_client exec a s = exec.success s
