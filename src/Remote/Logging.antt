-- ===== src/Remote/Logging.antt =====
-- A log of the client library, from Log(filename, host) and logln to the file that the daemon writes.
use logsvc.Common.{
  ℕ, ◌+◌, ◌<◌, ◌^◌, ◌≡◌, refl, ◌∙◌, ap, true, false, some, none, [], length, get_elem?, arith,
}
use logsvc.Common.Map.{find, same}
use logsvc.Common.Text.{Bytes}
use logsvc.Clients.ConnectedLogFile.{ConnectedLogFile, OnConnection, construct, writeln}
use logsvc.Clients.ConnectedLogFile.Replies.{construct_lem, writeln_lem, writeln-connection}
use logsvc.Daemon.RealSession.{State, executor, open_file, write_message, invalid_file_handle}
use logsvc.Daemon.RealSession.Closing.{Writes, wrote, unknown, write_message-Writes}
use logsvc.Daemon.RealSession.Invariant.{IsSound, logged}
use logsvc.Daemon.RealSession.Promises.{open_file-Opened}
use logsvc.Daemon.SocketSession.{SocketSession}
use logsvc.Daemon.SocketSession.Served.{served}
use logsvc.Daemon.World.{LogFile}
use logsvc.Errors.{FilePath, Result, ok, throw, file_write_error, what}
use logsvc.Log.Handles.{FileHandle, file_handle_of, handle_order}
use logsvc.Log.Objects.Acknowledged
use logsvc.Log.Objects.File
use logsvc.Log.Objects.Message
use logsvc.Log.Objects.NotAcknowledged
use logsvc.Log.Receivable.{
  Receivable, acknowledged, not_acknowledged, file, file_handle, message, act, as_deliverable,
  is_final_message,
}
use logsvc.Log.Wire.{IsSendable, IsPlain}
use logsvc.Log.Wire.Every.{sendable-Delivered}
use logsvc.Platform.{Platform}
use logsvc.Remote.{joined, request_lem}

module _ (P : Platform) where
  -- What writeln does to the daemon through an open file's handle: a line in the file of the handle's
  -- object, or an exception with the path and the reason, and nothing is changed.
  pub data Logs (st : SocketSession (State P)) (f : ConnectedLogFile) (fh : FileHandle)
      (text : Bytes) (r : Result (Unit {0}) × OnConnection (SocketSession (State P))) : Type 0 where
    line_written :
        (a : ℕ) (o : LogFile)
        → find handle_order fh st.executor.session.open_files ≡ some (some a)
        → get_elem? st.executor.world.objects a ≡ some o
        → r.0 ≡ ok tt
        → r.1.connection.executor ≡ logged P st.executor o text
        → Logs st f fh text r
    not_open :
        find handle_order fh st.executor.session.open_files ≡ none
        → r.0 ≡ throw (file_write_error f.file_path (what invalid_file_handle))
        → r.1.connection.executor ≡ st.executor
        → Logs st f fh text r

  module _ (st : SocketSession (State P)) (connected : st.has_socket ≡ true)
      (idle : st.current_receivable ≡ none) (s : IsSound P st.executor) where
    -- A file of the client without an error, with a handle that its message can carry, on an idle
    -- connection of a sound session: writeln returns and the line is in the file of the handle's object,
    -- or the handle is not open and writeln throws a FileWriteError with the file's path.
    pub writeln-Logs :
        (f : ConnectedLogFile) (n : ℕ) (text : Bytes)
        → f.file ≡ some (file_handle_of n)
        → f.error_string ≡ []
        → IsPlain n
        → 4 + length text < 2 ^ 32
        → Logs st f
            (file_handle_of n)
            text
            (writeln (joined P) text (record { connection = st; log_file = f }))
    unfolding act Message.act what is_final_message
    writeln-Logs f n text has_handle clean plain small =
        by_write (write_message-Writes P st.executor (file_handle_of n) text s)
      where
        sent :
            (reply : Receivable) (after : State P)
            → IsSendable reply
            → act P (executor P) (message (Message.of_text text (file_handle_of n))) st.executor
              ≡ (ok (some (as_deliverable reply)), after)
            → (k : ℕ) × (answer : Bytes) × ((joined P).send
                  (Message.deliverable (Message.of_text text (file_handle_of n)))
                  st
                ≡ (ok reply, served P (executor P) st k false answer after))
        sent reply after sendable acts =
            request_lem P st (message (Message.of_text text (file_handle_of n))) reply after
              connected idle (sendable-Delivered P _ (refl, refl, plain, small))
              (sendable-Delivered P reply sendable) acts

        by_write :
            Writes P st.executor
              (file_handle_of n)
              text
              (write_message P (file_handle_of n) text st.executor)
            → Logs st f
                (file_handle_of n)
                text
                (writeln (joined P) text (record { connection = st; log_file = f }))
        by_write (wrote a o is_open there q) =
            let e =
              sent (acknowledged Acknowledged.acknowledged) (logged P st.executor o text) refl
                (rw q) in
            line_written a o is_open there
              (writeln_lem (joined P) _ text _ _ _ has_handle clean e.2).0
              (ap (λ (t : SocketSession (State P)). t.executor)
                (writeln-connection (joined P) _ text _ _ _ has_handle e.2))
        by_write (unknown is_not q) =
            let e =
              sent (not_acknowledged (NotAcknowledged.of_reason (what invalid_file_handle)))
                st.executor (refl, omega arith) (rw q) in
            not_open is_not (writeln_lem (joined P) _ text _ _ _ has_handle clean e.2).0 (
              ap (λ (t : SocketSession (State P)). t.executor)
                (writeln-connection (joined P) _ text _ _ _ has_handle e.2))

  -- An open handle is the first case.
  Logs-written :
      (st : SocketSession (State P)) (f : ConnectedLogFile) (fh : FileHandle) (text : Bytes)
      (r : Result (Unit {0}) × OnConnection (SocketSession (State P)))
      → Logs st f fh text r
      → (a : ℕ) (o : LogFile) → find handle_order fh st.executor.session.open_files ≡ some (some a)
      → get_elem? st.executor.world.objects a ≡ some o
      → (r.0 ≡ ok tt) × (r.1.connection.executor ≡ logged P st.executor o text)
  Logs-written st f fh text r (line_written b p is_open there returned e) a o is_open' there' =
      let same_address : b ≡ a = ground (arith, is_open, is_open') in
      let same_object : p ≡ o =
        ground (arith, ap (get_elem? st.executor.world.objects) same_address, there, there') in
      (returned, e ∙ ap (λ (x : LogFile). logged P st.executor x text) same_object)
  Logs-written st f fh text r (not_open is_not thrown e) a o is_open' there' = absurd (cc)

  -- On an idle connection of a sound session with room for another handle, for a path and a line that
  -- fit a payload and a path that is not "invalid path": where the session's open_file gives the path a
  -- handle whose bytes a message carries unchanged, the client's constructor makes a file with that
  -- handle and no error, and the line that the client then writes is appended to a file of the daemon
  -- whose path is the one that was opened.
  pub open_logs :
      (st : SocketSession (State P)) (path : FilePath) (n : ℕ) (text : Bytes) (after : State P)
      → st.has_socket ≡ true
      → st.current_receivable ≡ none
      → IsSound P st.executor
      → same P.path_order path File.invalid_path ≡ false
      → length path < 2 ^ 32
      → st.executor.session.file_handle_counter + 1 < 2 ^ 32
      → open_file P path st.executor ≡ (ok (file_handle_of n), after)
      → IsPlain n
      → 4 + length text < 2 ^ 32
      → (log : OnConnection (SocketSession (State P))) × (o : LogFile) × (construct
            (joined P)
            path
            st
          ≡ (ok log.log_file, log.connection))
        × (log.log_file
            ≡ record { file = some (file_handle_of n); error_string = []; file_path = path })
        × (same P.path_order o.filepath path ≡ true)
        × ((writeln (joined P) text log).0 ≡ ok tt)
        × ((writeln (joined P) text log).1.connection.executor ≡ logged P after o text)
  unfolding act File.act File.get_name is_final_message
  open_logs st path n text after connected idle s valid small room opens plain short =
      let opened = open_file-Opened P path (file_handle_of n) st.executor after s room opens in
      let e =
        request_lem P st (file (File.of_path path)) (file_handle (file_handle_of n)) after connected
          idle (sendable-Delivered P _ (refl, small)) (sendable-Delivered P _ (refl, plain.small))
          (rw (valid, opens)) in
      let u = served P (executor P) st e.0 false e.1 after in
      let f : ConnectedLogFile = record {
        file = some (file_handle_of n);
        error_string = [];
        file_path = path;
      } in
      let written =
        Logs-written u f (file_handle_of n) text _
          (writeln-Logs u connected refl opened.sound f n text refl refl plain short) opened.address
          opened.object opened.open_on opened.there in
      (
        record { connection = u; log_file = f },
        opened.object,
        construct_lem (joined P) path _ st u e.2,
        refl,
        opened.for_path,
        written.0,
        written.1,
      )
