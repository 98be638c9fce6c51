-- ===== src/Log/Objects/Disconnect.antt =====
-- log/Disconnect.cpp
use logsvc.Common.{ℕ, Bool, true, Option, none, some}
use logsvc.Common.Text.{Bytes, codes}
use logsvc.Errors.{Result, fault, what, map_ok}
use logsvc.Exec.{Exec, pure, crash, attempt, ◌>>◌}
use logsvc.Log.Codec.{create_header}
use logsvc.Log.Handles.{ClientHandle, client_handle_of}
use logsvc.Log.Interfaces.{Deliverable, Executor, ClientExecutor}
use logsvc.Log.Objects.Acknowledged
use logsvc.Log.Objects.NotAcknowledged
use logsvc.Log.Objects.ClientHandle as ClientHandleObject

-- `client` is a pointer that may be null.
pub record Disconnect : Type 0 where
  pub payload_length : ℕ
  pub client : Option ClientHandle

-- Disconnect()
abbrev pub empty : Disconnect
empty = record { payload_length = 4; client = none }

-- Disconnect(const ClientHandle& ch)
abbrev pub of_handle : ClientHandle → Disconnect
of_handle ch = record { payload_length = ch.payload_length; client = some ch }

unfoldable pub get_header : Disconnect → Result Bytes
get_header d = create_header (codes "disc") 4

-- assert(client != nullptr)
unfoldable pub get_payload : Disconnect → Result Bytes
get_payload d = elim d.client [ none ↦ fault | some ch ↦ ClientHandleObject.get_payload ch ]

unfoldable pub read_payload : Disconnect → Bytes → Result Disconnect
read_payload d payload =
    map_ok (λ h. record d { client = some h })
      (ClientHandleObject.read_payload (client_handle_of 0) payload)

unfoldable pub is_final_message : Disconnect → Bool
is_final_message d = true

abbrev pub deliverable : Disconnect → Deliverable
deliverable d = record { get_header = get_header d; get_payload = get_payload d }

module _ {S : Type 0} where
  pub act_on : Executor S → Option ClientHandle → Exec S (Option Deliverable)
  act_on exec none = crash
  act_on exec (some client) =
      attempt
        (do
          exec.disconnect_client client
          pure (some (Acknowledged.deliverable Acknowledged.acknowledged)))
        (λ e. pure (some (NotAcknowledged.deliverable (NotAcknowledged.of_reason (what e)))))

  -- assert(client != nullptr)
  unfoldable pub act : Executor S → Disconnect → Exec S (Option Deliverable)
  unfolding act_on
  act exec d = act_on exec d.client

  unfoldable pub act_client : ClientExecutor S → Disconnect → S → S
  act_client exec d s = s
