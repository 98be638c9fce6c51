-- ===== src/Daemon/Service.antt =====
-- The daemon seen from its socket: what the bytes of a request do to the disk, and the bytes that
-- answer it.
use logsvc.Common.{
  ℕ, ◌<◌, ◌^◌, ◌≡◌, refl, true, false, none, some, [], ◌++◌, length, get_elem?, arith,
}
use logsvc.Common.Map.{find}
use logsvc.Common.Text.{Bytes, codes}
use logsvc.Daemon.RealSession.{State, executor, write_message, invalid_file_handle}
use logsvc.Daemon.RealSession.Closing.{Writes, wrote, unknown, write_message-Writes}
use logsvc.Daemon.RealSession.Invariant.{IsSound, logged}
use logsvc.Daemon.SocketSession.{SocketSession}
use logsvc.Daemon.SocketSession.Served.{exchange, served, exchange_lem}
use logsvc.Daemon.World.{LogFile}
use logsvc.Errors.{Result, ok, what}
use logsvc.Log.Codec.{start_seq}
use logsvc.Log.Codec.RoundTrip.{bytes32}
use logsvc.Log.Factory.Known.{create_header_lem}
use logsvc.Log.Handles.{handle_order}
use logsvc.Log.Objects.Acknowledged
use logsvc.Log.Objects.NotAcknowledged
use logsvc.Log.Objects.Message
use logsvc.Log.Receivable.{
  acknowledged, not_acknowledged, message, act, as_deliverable, is_final_message,
}
use logsvc.Log.Wire.{Arrives}
use logsvc.Platform.{Platform}

-- The bytes of a positive answer, and of a negative one.
abbrev pub ackn_bytes : Bytes
ackn_bytes = start_seq ++ (codes "ackn" ++ bytes32 0)

abbrev pub nack_bytes : Bytes → Bytes
nack_bytes reason = (start_seq ++ (codes "nack" ++ bytes32 (length reason))) ++ reason

small_reason : length (what invalid_file_handle) < 2 ^ 32
unfolding what
small_reason = omega arith

module _ (P : Platform) (st : SocketSession (State P)) where
  -- What becomes of a message: a line in the file of the handle's object and a positive answer, or a
  -- negative one.
  pub data MessageServed (m : Message.Message) (payload : Bytes)
      (r : Result (Unit {0}) × SocketSession (State P)) : Type 0 where
    line_written :
        (a : ℕ) (o : LogFile)
        → find handle_order m.fh st.executor.session.open_files ≡ some (some a)
        → get_elem? st.executor.world.objects a ≡ some o
        → r ≡ (
          ok tt,
          served P
              (executor P)
              st
              (length payload)
              false
              ackn_bytes
              (logged P st.executor o m.message),
        )
        → MessageServed m payload r
    not_open :
        find handle_order m.fh st.executor.session.open_files ≡ none
        → r ≡ (
          ok tt,
          served P
              (executor P)
              st
              (length payload)
              false
              (nack_bytes (what invalid_file_handle))
              st.executor,
        )
        → MessageServed m payload r

  -- On an idle connection of a sound session, when the bytes of a message arrive: if its handle is
  -- open, the message is appended as one line to the file of the handle's object and answered by
  -- ackn; if the handle is not open, the disk and the session stay and the answer is nack with the
  -- reason. The connection then listens for the next header.
  pub message_served :
      (m : Message.Message) (header payload : Bytes)
      → st.has_socket ≡ true
      → st.current_receivable ≡ none
      → IsSound P st.executor
      → Arrives P (message m) header payload
      → MessageServed m payload (exchange P (executor P) header payload st)
  unfolding act Message.act is_final_message Acknowledged.get_header Acknowledged.get_payload
      NotAcknowledged.get_header NotAcknowledged.get_payload
  message_served m header payload connected idle s a =
      by_write (write_message-Writes P st.executor m.fh m.message s)
    where
      by_write :
          Writes P st.executor m.fh m.message (write_message P m.fh m.message st.executor)
          → MessageServed m payload (exchange P (executor P) header payload st)
      by_write (wrote b o is_open there q) = line_written b o is_open there (
          exchange_lem P (executor P) st connected (message m) header payload
            (as_deliverable (acknowledged Acknowledged.acknowledged))
            (logged P st.executor o m.message) ackn_bytes [] idle a (rw q)
            (create_header_lem (codes "ackn") 0 refl (omega arith)) refl)
      by_write (unknown is_not q) = not_open is_not (
          exchange_lem P (executor P) st connected (message m) header payload
            (as_deliverable
              (not_acknowledged (NotAcknowledged.of_reason (what invalid_file_handle))))
            st.executor (start_seq ++ (codes "nack" ++ bytes32 (length (what invalid_file_handle))))
            (what invalid_file_handle) idle a (rw q)
            (create_header_lem (codes "nack") (length (what invalid_file_handle)) refl small_reason)
            refl)
