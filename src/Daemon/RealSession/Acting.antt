-- ===== src/Daemon/RealSession/Acting.antt =====
-- The `act` of a protocol object, on a session: at most one of the calls of Executor.h.
use logsvc.Common.{◌≡◌, refl, Option, none, some}
use logsvc.Daemon.RealSession as RealSession
use logsvc.Daemon.RealSession.{
  State, executor, open_file, write_message, set_client_info, disconnect_client,
}
use logsvc.Daemon.RealSession.Requests.{
  Request, opens, closes, writes, introduces, disconnects, perform,
}
use logsvc.Errors.{FilePath, Result, ok, throw, fault}
use logsvc.Exec.{pure, resume, handle}
use logsvc.Log.Answers.{refuse}
use logsvc.Log.Handles.{ClientHandle}
use logsvc.Log.Interfaces.{Deliverable}
use logsvc.Log.Objects.Acknowledged
use logsvc.Log.Objects.Client
use logsvc.Log.Objects.ClientHandle as ClientHandleObject
use logsvc.Log.Objects.CloseFile
use logsvc.Log.Objects.Disconnect
use logsvc.Log.Objects.File
use logsvc.Log.Objects.FileHandle as FileHandleObject
use logsvc.Log.Objects.Message
use logsvc.Log.Objects.NotAcknowledged
use logsvc.Log.Receivable.{
  Receivable, acknowledged, not_acknowledged, client, client_handle, close_file, disconnect, file,
  file_handle, message, act,
}
use logsvc.Platform.{Platform}

-- Forming the answer to a call leaves its state alone.
answering :
    {S A : Type 0} (k : A → Deliverable) (m : Result A × S)
    → (handle refuse (resume (λ a. pure (some (k a))) m)).1 ≡ m.1
answering k (ok a, s) = refl
answering k (throw e, s) = refl
answering k (fault, s) = refl

module _ (P : Platform) where
  pub data Acts (st st' : State P) : Type 0 where
    untouched : st' ≡ st → Acts st st'
    performed : (r : Request) → st' ≡ perform P r st → Acts st st'

  file-Acts : (f : File.File) (st : State P) → Acts st (File.act P (executor P) f st).1
  unfolding File.act perform
  file-Acts f st = named (File.get_name P f)
    where
      named :
          (name : Result FilePath)
          → Acts st
              (handle refuse (
                resume
                  (λ n t.
                    resume (λ fh. pure (some (FileHandleObject.deliverable fh))) (open_file P n t))
                  (name, st))).1
      named (ok n) = performed (opens n) (answering _ (open_file P n st))
      named (throw e) = untouched refl
      named fault = untouched refl

  disconnect-Acts :
      (d : Disconnect.Disconnect) (st : State P) → Acts st (Disconnect.act (executor P) d st).1
  unfolding Disconnect.act perform
  disconnect-Acts d st = by_client d.client
    where
      by_client : (c : Option ClientHandle) → Acts st (Disconnect.act_on (executor P) c st).1
      by_client none = untouched refl
      by_client (some h) = performed (disconnects h) (answering _ (disconnect_client P h st))

  pub act-Acts : (r : Receivable) (st : State P) → Acts st (act P (executor P) r st).1
  unfolding act Acknowledged.act NotAcknowledged.act ClientHandleObject.act FileHandleObject.act
      Message.act CloseFile.act Client.act perform
  act-Acts (acknowledged a) st = untouched refl
  act-Acts (not_acknowledged a) st = untouched refl
  act-Acts (client_handle h) st = untouched refl
  act-Acts (file_handle h) st = untouched refl
  act-Acts (client c) st =
      performed (introduces c.its_name (P.to_string c.its_ip))
        (answering _ (set_client_info P c.its_name (P.to_string c.its_ip) st))
  act-Acts (close_file c) st =
      performed (closes c.file_handle) (answering _ (RealSession.close_file P c.file_handle st))
  act-Acts (disconnect d) st = disconnect-Acts d st
  act-Acts (file f) st = file-Acts f st
  act-Acts (message m) st =
      performed (writes m.fh m.message) (answering _ (write_message P m.fh m.message st))
