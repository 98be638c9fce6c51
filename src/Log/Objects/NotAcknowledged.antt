-- ===== src/Log/Objects/NotAcknowledged.antt =====
-- log/NotAcknowledged.cpp
use logsvc.Common.{ℕ, Option, none, [], length}
use logsvc.Common.Text.{Bytes, codes}
use logsvc.Errors.{Result, ok}
use logsvc.Exec.{Exec, pure}
use logsvc.Log.Codec.{create_header}
use logsvc.Log.Interfaces.{Deliverable, Executor, ClientExecutor}

pub record NotAcknowledged : Type 0 where
  pub payload_length : ℕ
  pub reason : Bytes

-- NotAcknowledged(std::size_t payload_length)
abbrev pub of_length : ℕ → NotAcknowledged
of_length payload_length = record { payload_length = payload_length; reason = [] }

-- NotAcknowledged(const std::string& reason)
abbrev pub of_reason : Bytes → NotAcknowledged
of_reason reason = record { payload_length = length reason; reason = reason }

abbrev pub get_reason : NotAcknowledged → Bytes
get_reason a = a.reason

unfoldable pub get_header : NotAcknowledged → Result Bytes
get_header a = create_header (codes "nack") (length a.reason)

unfoldable pub get_payload : NotAcknowledged → Result Bytes
get_payload a = ok a.reason

unfoldable pub read_payload : NotAcknowledged → Bytes → Result NotAcknowledged
read_payload a payload = ok (record a { reason = payload })

abbrev pub deliverable : NotAcknowledged → Deliverable
deliverable a = record { get_header = get_header a; get_payload = get_payload a }

module _ {S : Type 0} where
  unfoldable pub act : Executor S → NotAcknowledged → Exec S (Option Deliverable)
  act exec a = pure none

  unfoldable pub act_client : ClientExecutor S → NotAcknowledged → S → S
  act_client exec a s = exec.set_error a.reason s
