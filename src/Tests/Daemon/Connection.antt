-- ===== src/Tests/Daemon/Connection.antt =====
-- A connection that receives a message.
use logsvc.Common.{◌↔◌, ◌≡◌, refl, ◌⊎◌, true, false, none, some, [], ◌∷◌, ◌++◌, length, arith}
use logsvc.Common.Text.{Bytes, codes, bytes_eq}
use logsvc.Common.Map.{find, insert, assign, same}
use logsvc.Daemon.TimestampFactory as TimestampFactory
use logsvc.Daemon.Collection as Collection
use logsvc.Daemon.LogFile as LogFile
use logsvc.Daemon.RealSession.{
  State, executor, open_file, get_filehandle_for_path, open_file_if_necessary, write_message,
  get_timestamp,
}
use logsvc.Daemon.Service.{MessageServed, message_served}
use logsvc.Daemon.SocketSession.{
  SocketSession, construct, start_listen, async_read, async_write, bytes_received,
}
use logsvc.Daemon.SocketSession.Served.{header_iff, exchange, served, exchange_lem, reply_faults}
use logsvc.Daemon.SocketSession.Reachable.{Reachable, Step, has_read, started, stepped, IsReady}
use logsvc.Daemon.SocketSession.Safety.{reachable_lem}
use logsvc.Errors.{ok, fault}
use logsvc.Log.Answers.{is_reply, Answered, act_lem}
use logsvc.Log.Handles.{file_handle_of, file_handle_lt}
use logsvc.Log.Codec.{start_seq, create_header, encode_32bit_int, decode_32bit_int, sign_extend}
use logsvc.Log.Codec.RoundTrip.{bytes32}
use logsvc.Log.Factory.{create, check_payload_length}
use logsvc.Log.Factory.Known.{Announces, create_known, mesg_kind, ackn_kind}
use logsvc.Log.Objects.Message
use logsvc.Log.Objects.FileHandle as FileHandleObject
use logsvc.Log.Objects.Acknowledged
use logsvc.Log.Receivable.{
  Receivable, message, acknowledged, act, get_payload_length, read_payload, as_deliverable,
  is_final_message,
}
use logsvc.Log.Wire.{Arrives}
use logsvc.Tests.{are_bytes_lem, stand_in}
use logsvc.Tests.Daemon.{opened_state, opened_state-IsSound}

-- A connection whose session has opened a file.
abbrev idle_connection : SocketSession (State stand_in)
idle_connection = construct opened_state

abbrev greeting : Message.Message
greeting = Message.of_text (codes "hello") (file_handle_of 1)

abbrev greeting_header : Bytes
greeting_header = start_seq ++ (codes "mesg" ++ bytes32 9)

abbrev greeting_payload : Bytes
greeting_payload = bytes32 1 ++ codes "hello"

greeting-Arrives : Arrives stand_in (message greeting) greeting_header greeting_payload
unfolding Message.get_header Message.get_payload create create_header encode_32bit_int
    decode_32bit_int get_payload_length read_payload Message.read_payload
    FileHandleObject.get_payload Message.read_handle sign_extend
greeting-Arrives = record {
  sent_header = refl;
  sent_payload = refl;
  header_size = refl;
  waiting = message (Message.of_length 9);
  announced = create_known stand_in mesg_kind 9 (omega arith);
  payload_size = refl;
  received = refl;
}

act_example :
    ((is_reply (message greeting) ≡ true)
      × (act stand_in (executor stand_in) (message greeting) opened_state
          ≡ (ok none, opened_state)))
    ⊎ ((is_reply (message greeting) ≡ false)
        × Answered (act stand_in (executor stand_in) (message greeting) opened_state))
act_example = act_lem stand_in (executor stand_in) opened_state (message greeting)

abbrev ackn_header : Bytes
ackn_header = start_seq ++ (codes "ackn" ++ bytes32 0)

abbrev ackn : Receivable
ackn = acknowledged Acknowledged.acknowledged

ackn-Arrives : Arrives stand_in ackn ackn_header []
unfolding Acknowledged.get_header Acknowledged.get_payload create_header encode_32bit_int
    get_payload_length read_payload Acknowledged.read_payload check_payload_length
ackn-Arrives = record {
  sent_header = refl;
  sent_payload = refl;
  header_size = refl;
  waiting = ackn;
  announced = create_known stand_in ackn_kind 0 (omega arith);
  payload_size = refl;
  received = refl;
}

reply_faults_example :
    (exchange stand_in (executor stand_in) ackn_header [] idle_connection).0 ≡ fault
reply_faults_example =
    reply_faults stand_in (executor stand_in) idle_connection refl ackn ackn_header [] refl
      ackn-Arrives refl

message_served_example :
    MessageServed stand_in idle_connection greeting greeting_payload
      (exchange stand_in (executor stand_in) greeting_header greeting_payload idle_connection)
message_served_example =
    message_served stand_in idle_connection greeting greeting_header greeting_payload refl refl
      opened_state-IsSound greeting-Arrives

abbrev written_state : State stand_in
written_state = (write_message stand_in (file_handle_of 1) (codes "hello") opened_state).1

acts :
    act stand_in (executor stand_in) (message greeting) opened_state
    ≡ (ok (some (as_deliverable ackn)), written_state)
unfolding act Message.act open_file get_filehandle_for_path open_file_if_necessary write_message
    get_timestamp TimestampFactory.get_timestamp TimestampFactory.generate Collection.open_file
    Collection.lock LogFile.write LogFile.allocate LogFile.construct find insert assign same
    bytes_eq file_handle_lt
acts = refl

exchange_example :
    exchange stand_in (executor stand_in) greeting_header greeting_payload idle_connection ≡ (
      ok tt,
      served stand_in
          (executor stand_in)
          idle_connection
          (length greeting_payload)
          (is_final_message (message greeting))
          (ackn_header ++ [])
          written_state,
    )
unfolding Acknowledged.get_header Acknowledged.get_payload create_header encode_32bit_int
exchange_example =
    exchange_lem stand_in (executor stand_in) idle_connection refl (message greeting)
      greeting_header greeting_payload (as_deliverable ackn) written_state ackn_header [] refl
      greeting-Arrives acts refl refl

-- The connection through the three completions of an exchange: a header and a payload have been read.
abbrev listening : SocketSession (State stand_in)
listening = start_listen idle_connection

abbrev none_outstanding : SocketSession (State stand_in) → SocketSession (State stand_in)
none_outstanding st = record st { calls = [] }

abbrev announced : SocketSession (State stand_in)
announced = record idle_connection {
  current_receivable = some (message (Message.of_length 9));
  calls = async_read 9 ∷ [];
}

abbrev replying : SocketSession (State stand_in)
replying = record idle_connection {
  current_receivable = some (message greeting);
  executor = written_state;
  calls = async_write ackn_header ∷ [];
}

header-Step : Step stand_in (executor stand_in) listening announced
unfolding start_listen bytes_received get_payload_length
header-Step =
    has_read [] [] 12 greeting_header refl refl
      (rw (create_known stand_in mesg_kind 9 (omega arith)) refl)

payload-Step : Step stand_in (executor stand_in) announced replying
unfolding bytes_received read_payload Message.read_payload Message.read_handle sign_extend
    Acknowledged.get_header Acknowledged.get_payload create_header encode_32bit_int
payload-Step = has_read [] [] 9 greeting_payload refl refl (rw acts refl)

replying-Reachable : Reachable stand_in (executor stand_in) replying
replying-Reachable =
    stepped announced replying (stepped listening announced (started opened_state) header-Step)
      payload-Step

reachable_example : IsReady stand_in (executor stand_in) replying
reachable_example = reachable_lem stand_in (executor stand_in) replying replying-Reachable

header_iff_example :
    ((bytes_received stand_in (executor stand_in) greeting_header idle_connection).0 ≡ ok tt)
    ↔ ((r : Receivable) × Announces greeting_header r)
header_iff_example =
    header_iff stand_in (executor stand_in) idle_connection refl greeting_header refl
      (are_bytes_lem greeting_header refl)
