-- ===== src/Log/Receivable.antt =====
-- log/Receivable.h: a protocol object of any class, as the factory makes it, and its virtual calls.
use logsvc.Common.{ℕ, Bool, false, Option}
use logsvc.Common.Text.{Bytes}
use logsvc.Errors.{Result, map_ok}
use logsvc.Exec.{Exec}
use logsvc.Log.Handles.{FileHandle, ClientHandle}
use logsvc.Log.Interfaces.{Deliverable, Executor, ClientExecutor}
use logsvc.Log.Objects.Acknowledged
use logsvc.Log.Objects.Client
use logsvc.Log.Objects.ClientHandle as ClientHandleObject
use logsvc.Log.Objects.CloseFile
use logsvc.Log.Objects.Disconnect
use logsvc.Log.Objects.File
use logsvc.Log.Objects.FileHandle as FileHandleObject
use logsvc.Log.Objects.Message
use logsvc.Log.Objects.NotAcknowledged
use logsvc.Platform.{Platform}

pub data Receivable : Type 0 where
  acknowledged : Acknowledged.Acknowledged → Receivable
  not_acknowledged : NotAcknowledged.NotAcknowledged → Receivable
  client : Client.Client → Receivable
  client_handle : ClientHandle → Receivable
  close_file : CloseFile.CloseFile → Receivable
  disconnect : Disconnect.Disconnect → Receivable
  file : File.File → Receivable
  file_handle : FileHandle → Receivable
  message : Message.Message → Receivable

-- AbstractReceivable::get_payload_length
unfoldable pub get_payload_length : Receivable → ℕ
get_payload_length (acknowledged a) = a.payload_length
get_payload_length (not_acknowledged a) = a.payload_length
get_payload_length (client c) = c.payload_length
get_payload_length (client_handle h) = h.payload_length
get_payload_length (close_file c) = c.payload_length
get_payload_length (disconnect d) = d.payload_length
get_payload_length (file f) = f.payload_length
get_payload_length (file_handle h) = h.payload_length
get_payload_length (message m) = m.payload_length

-- AbstractReceivable::is_final_message, which Disconnect overrides
unfoldable pub is_final_message : Receivable → Bool
unfolding Disconnect.is_final_message
is_final_message (disconnect d) = Disconnect.is_final_message d
is_final_message _ = false

unfoldable pub read_payload : Bytes → Receivable → Result Receivable
read_payload payload (acknowledged a) = map_ok acknowledged (Acknowledged.read_payload a payload)
read_payload payload (not_acknowledged a) =
    map_ok not_acknowledged (NotAcknowledged.read_payload a payload)
read_payload payload (client c) = map_ok client (Client.read_payload c payload)
read_payload payload (client_handle h) =
    map_ok client_handle (ClientHandleObject.read_payload h payload)
read_payload payload (close_file c) = map_ok close_file (CloseFile.read_payload c payload)
read_payload payload (disconnect d) = map_ok disconnect (Disconnect.read_payload d payload)
read_payload payload (file f) = map_ok file (File.read_payload f payload)
read_payload payload (file_handle h) = map_ok file_handle (FileHandleObject.read_payload h payload)
read_payload payload (message m) = map_ok message (Message.read_payload m payload)

-- The same object as something to send.
abbrev pub as_deliverable : Receivable → Deliverable
as_deliverable (acknowledged a) = Acknowledged.deliverable a
as_deliverable (not_acknowledged a) = NotAcknowledged.deliverable a
as_deliverable (client c) = Client.deliverable c
as_deliverable (client_handle h) = ClientHandleObject.deliverable h
as_deliverable (close_file c) = CloseFile.deliverable c
as_deliverable (disconnect d) = Disconnect.deliverable d
as_deliverable (file f) = File.deliverable f
as_deliverable (file_handle h) = FileHandleObject.deliverable h
as_deliverable (message m) = Message.deliverable m

module _ {S : Type 0} where
  unfoldable pub act : Platform → Executor S → Receivable → Exec S (Option Deliverable)
  act P exec (acknowledged a) = Acknowledged.act exec a
  act P exec (not_acknowledged a) = NotAcknowledged.act exec a
  act P exec (client c) = Client.act P exec c
  act P exec (client_handle h) = ClientHandleObject.act exec h
  act P exec (close_file c) = CloseFile.act exec c
  act P exec (disconnect d) = Disconnect.act exec d
  act P exec (file f) = File.act P exec f
  act P exec (file_handle h) = FileHandleObject.act exec h
  act P exec (message m) = Message.act exec m

  unfoldable pub act_client : ClientExecutor S → Receivable → S → S
  act_client exec (acknowledged a) = Acknowledged.act_client exec a
  act_client exec (not_acknowledged a) = NotAcknowledged.act_client exec a
  act_client exec (client c) = Client.act_client exec c
  act_client exec (client_handle h) = ClientHandleObject.act_client exec h
  act_client exec (close_file c) = CloseFile.act_client exec c
  act_client exec (disconnect d) = Disconnect.act_client exec d
  act_client exec (file f) = File.act_client exec f
  act_client exec (file_handle h) = FileHandleObject.act_client exec h
  act_client exec (message m) = Message.act_client exec m
