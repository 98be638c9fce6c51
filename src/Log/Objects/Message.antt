-- ===== src/Log/Objects/Message.antt =====
-- log/Message.cpp: a message for an open file.
use logsvc.Common.{
  ℕ, ◌+◌, ◌*◌, ◌%◌, ◌^◌, Option, some, ◌++◌, bit_or, ltb, length, get_or, drop, if◌then◌else◌,
}
use logsvc.Common.Text.{Bytes, codes}
use logsvc.Errors.{Result, ok, fault, what, map_ok}
use logsvc.Exec.{Exec, pure, attempt, ◌>>◌}
use logsvc.Log.Codec.{create_header, sign_extend}
use logsvc.Log.Handles.{FileHandle, file_handle_of}
use logsvc.Log.Interfaces.{Deliverable, Executor, ClientExecutor}
use logsvc.Log.Objects.Acknowledged
use logsvc.Log.Objects.FileHandle as FileHandleObject
use logsvc.Log.Objects.NotAcknowledged

pub record Message : Type 0 where
  pub payload_length : ℕ
  pub message : Bytes
  pub fh : FileHandle

-- Message(std::size_t payload_length)
abbrev pub of_length : ℕ → Message
of_length payload_length = record {
  payload_length = payload_length;
  message = codes "a message";
  fh = file_handle_of 0x3456;
}

-- Message(const std::string& msg, const FileHandle& fh)
abbrev pub of_text : Bytes → FileHandle → Message
of_text msg fh = record { payload_length = 4 + length msg; message = msg; fh = fh }

abbrev pub get_message : Message → Bytes
get_message m = m.message

abbrev pub get_filehandle : Message → FileHandle
get_filehandle m = m.fh

unfoldable pub get_header : Message → Result Bytes
get_header m = create_header (codes "mesg") (4 + length m.message)

unfoldable pub get_payload : Message → Result Bytes
get_payload m = map_ok (λ handle. handle ++ m.message) (FileHandleObject.get_payload m.fh)

-- payload[i] << (8 * i): the `char` is widened to an `int` of 32 bits before the shift.
unfoldable pub shifted_char : Bytes → ℕ → ℕ
shifted_char payload i = sign_extend 32 (get_or payload i 0) * 2 ^ (8 * i) % 2 ^ 32

-- handle |= payload[0]; … handle |= payload[3] << 24;
unfoldable pub read_handle : Bytes → ℕ
unfolding shifted_char
read_handle payload =
    bit_or
      (bit_or (bit_or (bit_or 0 (shifted_char payload 0)) (shifted_char payload 1))
        (shifted_char payload 2))
      (shifted_char payload 3)

-- assert(payload.size() >= 4)
unfoldable pub read_payload : Message → Bytes → Result Message
read_payload m payload =
    if ltb (length payload) 4
    then fault
    else ok (record m { fh = file_handle_of (read_handle payload); message = drop 4 payload })

abbrev pub deliverable : Message → Deliverable
deliverable m = record { get_header = get_header m; get_payload = get_payload m }

module _ {S : Type 0} where
  unfoldable pub act : Executor S → Message → Exec S (Option Deliverable)
  act exec m =
      attempt
        (do
          exec.write_message m.fh m.message
          pure (some (Acknowledged.deliverable Acknowledged.acknowledged)))
        (λ e. pure (some (NotAcknowledged.deliverable (NotAcknowledged.of_reason (what e)))))

  unfoldable pub act_client : ClientExecutor S → Message → S → S
  act_client exec m s = s
