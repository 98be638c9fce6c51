-- ===== src/Clients/LocalClient/Connecting.antt =====
-- What a client makes of the reply to its introduction.
use logsvc.Common.{true, ◌≡◌, refl, ◌∙◌, ap, Option, none, some, [], ◌∷◌}
use logsvc.Common.Text.{Bytes}
use logsvc.Clients.{SessionConnection}
use logsvc.Clients.ConnectionFactory.{ConnectionFactory}
use logsvc.Clients.ConnectedLogFile.Replies.{refusal, verdict}
use logsvc.Clients.LocalClient.{
  LocalClient, construct, introduce, on_connection, connected, executor, set_client_handle,
  set_error,
}
use logsvc.Errors.{Exception, unable_to_connect_error, Result, ok}
use logsvc.Exec.{Exec, resume}
use logsvc.Log.Handles.{ClientHandle}
use logsvc.Log.Objects.Acknowledged
use logsvc.Log.Objects.Client
use logsvc.Log.Objects.ClientHandle as ClientHandleObject
use logsvc.Log.Objects.CloseFile
use logsvc.Log.Objects.Disconnect
use logsvc.Log.Objects.File
use logsvc.Log.Objects.FileHandle as FileHandleObject
use logsvc.Log.Objects.Message
use logsvc.Log.Objects.NotAcknowledged
use logsvc.Log.Receivable.{
  Receivable, acknowledged, not_acknowledged, client, client_handle, close_file, disconnect, file,
  file_handle, message, act_client,
}

-- The client handle that a reply brings.
abbrev pub client_handle_in : Receivable → Option ClientHandle
client_handle_in (client_handle ch) = some ch
client_handle_in _ = none

abbrev pub refused : Bytes → Exception
refused reason = unable_to_connect_error (some reason)

module _ {S : Type 0} (c : SessionConnection S) where
  connected_by :
      (reply : Receivable)
      → connected c (act_client executor reply (record { client_handle = none; error = [] }))
        ≡ (λ (s : S). (
          verdict refused
              (record { client_handle = client_handle_in reply; error = [] })
              (refusal reply),
          s,
        ))
  unfolding connected act_client set_client_handle set_error Acknowledged.act_client
      Client.act_client ClientHandleObject.act_client CloseFile.act_client Disconnect.act_client
      File.act_client FileHandleObject.act_client Message.act_client NotAcknowledged.act_client
  connected_by (not_acknowledged a) = by_reason a.reason
    where
      by_reason :
          (reason : Bytes)
          → connected c (record { client_handle = none; error = reason })
            ≡ (λ (s : S). (verdict refused (record { client_handle = none; error = [] }) reason, s))
      by_reason [] = refl
      by_reason (b ∷ bs) = refl
  connected_by (acknowledged a) = refl
  connected_by (client x) = refl
  connected_by (client_handle x) = refl
  connected_by (close_file x) = refl
  connected_by (disconnect x) = refl
  connected_by (file x) = refl
  connected_by (file_handle x) = refl
  connected_by (message x) = refl

  -- When the factory has a connection and the introduction is answered, the constructor of a client
  -- throws an UnableToConnectError with the reason exactly where the answer is a refusal with a reason.
  -- Otherwise it makes a client with the client handle of the answer, or with none if the answer has
  -- none.
  pub connect_lem :
      (confac : ConnectionFactory S) (appname : Bytes) (info : Client.Client) (reply : Receivable)
      (s t u : S)
      → confac.create_session s ≡ (ok true, t)
      → confac.create_client_info appname ≡ ok info
      → c.send (Client.deliverable info) t ≡ (ok reply, u)
      → construct c confac appname s ≡ (
        verdict refused
            (record { client_handle = client_handle_in reply; error = [] })
            (refusal reply),
        u,
      )
  unfolding construct introduce on_connection
  connect_lem confac appname info reply s t u made informed answered =
      rw (made, informed)
        (ap
            (λ (p : Result Receivable × S).
              resume
                (λ (r : Receivable).
                  connected c (act_client executor r (record { client_handle = none; error = [] })))
                p)
            answered
          ∙ ap (λ (k : Exec S LocalClient). k u) (connected_by reply))
