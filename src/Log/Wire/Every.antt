-- ===== src/Log/Wire/Every.antt =====
-- The round trip for every class of protocol object.
use logsvc.Log.Receivable.{
  Receivable, acknowledged, not_acknowledged, client, client_handle, close_file, disconnect, file,
  file_handle, message,
}
use logsvc.Log.Wire.{
  IsSendable, Delivered, acknowledged-Delivered, not_acknowledged-Delivered, file-Delivered,
  file_handle-Delivered, client_handle-Delivered, close_file-Delivered, disconnect-Delivered,
}
use logsvc.Log.Wire.ClientInfo.{client-Delivered}
use logsvc.Log.Wire.MessageHandle.{message-Delivered}
use logsvc.Platform.{Platform}

-- Every object that is sendable arrives: it has a header of 12 bytes and a payload, the factory
-- takes the header, the object that it makes waits for as many bytes as the payload has, and
-- reading the payload into it gives the object that was sent.
pub sendable-Delivered : (P : Platform) (r : Receivable) → IsSendable r → Delivered P r
sendable-Delivered P (acknowledged a) h = acknowledged-Delivered P a h
sendable-Delivered P (not_acknowledged a) h = not_acknowledged-Delivered P a h
sendable-Delivered P (client c) h = client-Delivered P c h
sendable-Delivered P (client_handle c) h = client_handle-Delivered P c h
sendable-Delivered P (close_file c) h = close_file-Delivered P c h
sendable-Delivered P (disconnect d) h = disconnect-Delivered P d h
sendable-Delivered P (file f) h = file-Delivered P f h
sendable-Delivered P (file_handle c) h = file_handle-Delivered P c h
sendable-Delivered P (message m) h = message-Delivered P m h
