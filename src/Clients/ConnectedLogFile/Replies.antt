-- ===== src/Clients/ConnectedLogFile/Replies.antt =====
-- What the client makes of the replies to its requests.
use logsvc.Common.{◌≡◌, refl, ◌∙◌, ap, Option, none, some, [], ◌∷◌}
use logsvc.Common.Text.{Bytes}
use logsvc.Clients.{SessionConnection}
use logsvc.Clients.ConnectedLogFile.{
  ConnectedLogFile, OnConnection, construct, writeln, executor, set_error, set_file_handle, success,
  send_from, write_on, acted, complain, opened,
}
use logsvc.Errors.{FilePath, Exception, open_file_error, file_write_error, Result, ok, throw}
use logsvc.Exec.{Exec, resume}
use logsvc.Log.Handles.{FileHandle}
use logsvc.Log.Objects.Acknowledged
use logsvc.Log.Objects.Client
use logsvc.Log.Objects.ClientHandle as ClientHandleObject
use logsvc.Log.Objects.CloseFile
use logsvc.Log.Objects.Disconnect
use logsvc.Log.Objects.File
use logsvc.Log.Objects.FileHandle as FileHandleObject
use logsvc.Log.Objects.Message
use logsvc.Log.Objects.NotAcknowledged
use logsvc.Log.Receivable.{
  Receivable, acknowledged, not_acknowledged, client, client_handle, close_file, disconnect, file,
  file_handle, message, act_client,
}

-- The reason of a refusal; empty for any other reply.
abbrev pub refusal : Receivable → Bytes
refusal (not_acknowledged a) = a.reason
refusal _ = []

-- A positive answer, or the exception with the reason.
abbrev pub verdict : {A : Type 0} → (Bytes → Exception) → A → Bytes → Result A
verdict error answer [] = ok answer
verdict error answer (b ∷ bs) = throw (error (b ∷ bs))

-- The handle that a reply brings.
abbrev pub handle_in : Receivable → Option FileHandle
handle_in (file_handle fh) = some fh
handle_in _ = none

-- What a reply leaves in a file without an error.
replied :
    (reply : Receivable) (f : ConnectedLogFile)
    → f.error_string ≡ []
    → ((act_client executor reply f).error_string ≡ refusal reply)
      × ((act_client executor reply f).file_path ≡ f.file_path)
unfolding act_client set_error set_file_handle success Acknowledged.act_client Client.act_client
    ClientHandleObject.act_client CloseFile.act_client Disconnect.act_client File.act_client
    FileHandleObject.act_client Message.act_client NotAcknowledged.act_client
replied (not_acknowledged a) f clean = (refl, refl)
replied (acknowledged a) f clean = (clean, refl)
replied (client x) f clean = (clean, refl)
replied (client_handle x) f clean = (clean, refl)
replied (close_file x) f clean = (clean, refl)
replied (disconnect x) f clean = (clean, refl)
replied (file x) f clean = (clean, refl)
replied (file_handle x) f clean = (clean, refl)
replied (message x) f clean = (clean, refl)

module _ {S : Type 0} (c : SessionConnection S) where
  complained :
      (st : OnConnection S) (reason : Bytes)
      → st.log_file.error_string ≡ reason
      → ((complain c reason st).0 ≡ verdict (file_write_error st.log_file.file_path) tt reason)
        × ((complain c reason st).1.log_file.error_string ≡ [])
  unfolding complain
  complained st [] e = (refl, e)
  complained st (b ∷ bs) e = (rw e refl, refl)

  writeln-by :
      (st : OnConnection S) (text : Bytes) (fh : FileHandle) (reply : Receivable) (s : S)
      → st.log_file.file ≡ some fh
      → c.send (Message.deliverable (Message.of_text text fh)) st.connection ≡ (ok reply, s)
      → writeln c text st
        ≡ complain c
            (act_client executor reply st.log_file).error_string
            (record { connection = s; log_file = act_client executor reply st.log_file })
  unfolding writeln write_on send_from acted
  writeln-by st text fh reply s is_open answered =
      ap (λ (o : Option FileHandle). write_on c o text st) is_open
      ∙ ap
          (λ (p : Result Receivable × S).
            resume
              (λ (r : Receivable) (t : OnConnection S).
                resume (λ _ u. complain c u.log_file.error_string u) (acted c r t))
              (p.0, record st { connection = p.1 }))
          answered

  -- Of an open file without an error: when its message is answered, writeln throws a FileWriteError with
  -- the file's path and the reason exactly where the answer is a refusal with a reason, and returns
  -- otherwise. Either way no error is kept for the next message.
  pub writeln_lem :
      (st : OnConnection S) (text : Bytes) (fh : FileHandle) (reply : Receivable) (s : S)
      → st.log_file.file ≡ some fh
      → st.log_file.error_string ≡ []
      → c.send (Message.deliverable (Message.of_text text fh)) st.connection ≡ (ok reply, s)
      → ((writeln c text st).0
          ≡ verdict (file_write_error st.log_file.file_path) tt (refusal reply))
        × ((writeln c text st).1.log_file.error_string ≡ [])
  writeln_lem st text fh reply s is_open clean answered =
      let (kept, path) = replied reply st.log_file clean in
      let st' : OnConnection S = record {
        connection = s;
        log_file = act_client executor reply st.log_file;
      } in
      let e = writeln-by st text fh reply s is_open answered in
      let (says, clears) =
        complained st' (act_client executor reply st.log_file).error_string refl in
      (
        ap (λ (r : Result (Unit {0}) × OnConnection S). r.0) e
            ∙ says
            ∙ ap (λ (t : Bytes). verdict (file_write_error st'.log_file.file_path) tt t) kept
            ∙ ap (λ (q : FilePath). verdict (file_write_error q) tt (refusal reply)) path,
        ap (λ (r : Result (Unit {0}) × OnConnection S). r.1.log_file.error_string) e ∙ clears,
      )

  complain-connection :
      (reason : Bytes) (st : OnConnection S) → (complain c reason st).1.connection ≡ st.connection
  unfolding complain
  complain-connection [] st = refl
  complain-connection (b ∷ bs) st = refl

  -- What becomes of the connection is what the send leaves.
  pub writeln-connection :
      (st : OnConnection S) (text : Bytes) (fh : FileHandle) (reply : Receivable) (s : S)
      → st.log_file.file ≡ some fh
      → c.send (Message.deliverable (Message.of_text text fh)) st.connection ≡ (ok reply, s)
      → (writeln c text st).1.connection ≡ s
  writeln-connection st text fh reply s is_open answered =
      ap (λ (r : Result (Unit {0}) × OnConnection S). r.1.connection)
        (writeln-by st text fh reply s is_open answered)
      ∙ complain-connection (act_client executor reply st.log_file).error_string
          (record { connection = s; log_file = act_client executor reply st.log_file })

  -- What the constructor makes of the reply.
  made_by :
      (reply : Receivable) (path : FilePath)
      → opened c path
          (act_client executor reply (record { file = none; error_string = []; file_path = path }))
        ≡ (λ (s : S). (
          verdict
              (open_file_error path)
              (record { file = handle_in reply; error_string = []; file_path = path })
              (refusal reply),
          s,
        ))
  unfolding opened act_client set_error set_file_handle success Acknowledged.act_client
      Client.act_client ClientHandleObject.act_client CloseFile.act_client Disconnect.act_client
      File.act_client FileHandleObject.act_client Message.act_client NotAcknowledged.act_client
  made_by (not_acknowledged a) path = by_reason a.reason
    where
      by_reason :
          (reason : Bytes)
          → opened c path (record { file = none; error_string = reason; file_path = path })
            ≡ (λ (s : S). (
              verdict
                  (open_file_error path)
                  (record { file = none; error_string = []; file_path = path })
                  reason,
              s,
            ))
      by_reason [] = refl
      by_reason (b ∷ bs) = refl
  made_by (acknowledged a) path = refl
  made_by (client x) path = refl
  made_by (client_handle x) path = refl
  made_by (close_file x) path = refl
  made_by (disconnect x) path = refl
  made_by (file x) path = refl
  made_by (file_handle x) path = refl
  made_by (message x) path = refl

  -- When its request is answered, the constructor of a file throws an OpenFileError with the path and
  -- the reason exactly where the answer is a refusal with a reason. Otherwise it makes a file
  -- without an error, with the handle of the answer, or with no handle if the answer has none.
  pub construct_lem :
      (path : FilePath) (reply : Receivable) (s s' : S)
      → c.send (File.deliverable (File.of_path path)) s ≡ (ok reply, s')
      → construct c path s ≡ (
        verdict
            (open_file_error path)
            (record { file = handle_in reply; error_string = []; file_path = path })
            (refusal reply),
        s',
      )
  unfolding construct
  construct_lem path reply s s' answered =
      ap
        (λ (p : Result Receivable × S).
          resume
            (λ (r : Receivable).
              opened c path (
                act_client executor r
                  (record { file = none; error_string = []; file_path = path })))
            p)
        answered
      ∙ ap (λ (k : Exec S ConnectedLogFile). k s') (made_by reply path)
