-- ===== src/Log/Answers.antt =====
-- What the `act` of the protocol objects comes to, whatever the executor does: requests are answered,
-- with a negative answer where the executor throws, and replies are not.
use logsvc.Common.{◌≡◌, refl, Bool, true, false, ◌⊎◌, inl, inr, Option, none, some}
use logsvc.Errors.{FilePath, Exception, Result, ok, throw, fault, what}
use logsvc.Exec.{Exec, pure, resume, handle}
use logsvc.Log.Handles.{ClientHandle}
use logsvc.Log.Interfaces.{Deliverable, Executor}
use logsvc.Log.Objects.Acknowledged
use logsvc.Log.Objects.Client
use logsvc.Log.Objects.ClientHandle as ClientHandleObject
use logsvc.Log.Objects.CloseFile
use logsvc.Log.Objects.Disconnect
use logsvc.Log.Objects.File
use logsvc.Log.Objects.FileHandle as FileHandleObject
use logsvc.Log.Objects.Message
use logsvc.Log.Objects.NotAcknowledged
use logsvc.Log.Receivable.{
  Receivable, acknowledged, not_acknowledged, client, client_handle, close_file, disconnect, file,
  file_handle, message, as_deliverable, act,
}
use logsvc.Platform.{Platform}

-- The classes that the daemon sends.
abbrev pub is_reply : Receivable → Bool
is_reply (acknowledged a) = true
is_reply (not_acknowledged a) = true
is_reply (client_handle h) = true
is_reply (file_handle h) = true
is_reply _ = false

module _ {S : Type 0} where
  -- A request has been answered, or has ended the process.
  pub data Answered (r : Result (Option Deliverable) × S) : Type 0 where
    answered :
        (a : Receivable) (s : S)
        → is_reply a ≡ true
        → r ≡ (ok (some (as_deliverable a)), s)
        → Answered r
    died : (s : S) → r ≡ (fault, s) → Answered r

  -- The negative answer of every handler.
  abbrev pub refuse : Exception → Exec S (Option Deliverable)
  refuse e = pure (some (NotAcknowledged.deliverable (NotAcknowledged.of_reason (what e))))

  attempted :
      {A : Type 0} (k : A → Receivable) (m : Result A × S)
      → ((a : A) → is_reply (k a) ≡ true)
      → Answered (handle refuse (resume (λ a. pure (some (as_deliverable (k a)))) m))
  attempted k (ok a, s) h = answered (k a) s (h a) refl
  attempted k (throw e, s) h =
      answered (not_acknowledged (NotAcknowledged.of_reason (what e))) s refl refl
  attempted k (fault, s) h = died s refl

  module _ (P : Platform) (exec : Executor S) (s : S) where
    file-Answered : (f : File.File) → Answered (File.act P exec f s)
    unfolding File.act
    file-Answered f = named (File.get_name P f)
      where
        named :
            (name : Result FilePath)
            → Answered (
                handle refuse (
                  resume
                    (λ n t.
                      resume
                        (λ fh. pure (some (FileHandleObject.deliverable fh)))
                        (exec.open_file n t))
                    (name, s)))
        named (ok n) = attempted file_handle (exec.open_file n s) (λ fh. refl)
        named (throw e) =
            answered (not_acknowledged (NotAcknowledged.of_reason (what e))) s refl refl
        named fault = died s refl

    disconnect-Answered : (d : Disconnect.Disconnect) → Answered (Disconnect.act exec d s)
    unfolding Disconnect.act
    disconnect-Answered d = by_client d.client
      where
        by_client : (c : Option ClientHandle) → Answered (Disconnect.act_on exec c s)
        by_client none = died s refl
        by_client (some h) =
            attempted (λ u. acknowledged Acknowledged.acknowledged) (exec.disconnect_client h s)
              (λ u. refl)

    -- Whatever the executor does, a reply that is acted on by the daemon does nothing and has no
    -- answer; and a request either ends the process or is answered by a reply: it never throws.
    pub act_lem :
        (r : Receivable)
        → ((is_reply r ≡ true) × (act P exec r s ≡ (ok none, s)))
          ⊎ ((is_reply r ≡ false) × Answered (act P exec r s))
    unfolding act Acknowledged.act NotAcknowledged.act ClientHandleObject.act FileHandleObject.act
        Message.act CloseFile.act Client.act
    act_lem (acknowledged a) = inl (refl, refl)
    act_lem (not_acknowledged a) = inl (refl, refl)
    act_lem (client_handle h) = inl (refl, refl)
    act_lem (file_handle h) = inl (refl, refl)
    act_lem (client c) = inr (
      refl,
      attempted client_handle (exec.set_client_info c.its_name (P.to_string c.its_ip) s)
          (λ h. refl),
    )
    act_lem (close_file c) = inr (
      refl,
      attempted (λ u. acknowledged Acknowledged.acknowledged) (exec.close_file c.file_handle s)
          (λ u. refl),
    )
    act_lem (disconnect d) = inr (refl, disconnect-Answered d)
    act_lem (file f) = inr (refl, file-Answered f)
    act_lem (message m) = inr (
      refl,
      attempted (λ u. acknowledged Acknowledged.acknowledged) (exec.write_message m.fh m.message s)
          (λ u. refl),
    )
