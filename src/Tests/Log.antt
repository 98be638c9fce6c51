-- ===== src/Tests/Log.antt =====
-- Protocol objects on the wire.
use logsvc.Common.{◌≡◌, refl, ◌^◌, ◌↔◌, [], ◌∷◌, ◌++◌, length, arith, ◌≢◌, ◌≤◌}
use logsvc.Common.Text.{Bytes, codes}
use logsvc.Errors.{ok, throw, fault}
use logsvc.Log.Codec.{encode_32bit_int, decode_32bit_int, too_large, wrong_size, start_seq}
use logsvc.Log.Codec.RoundTrip.{encode-decode_iff, codec_rejects}
use logsvc.Log.Factory.{create}
use logsvc.Log.Factory.Known.{Announces, create_iff}
use logsvc.Log.Handles.{file_handle_of}
use logsvc.Log.Objects.Client
use logsvc.Log.Objects.Message
use logsvc.Log.Objects.File
use logsvc.Log.Receivable.{message, file}
use logsvc.Log.Wire.{IsSendable, Delivered}
use logsvc.Log.Wire.ClientInfo.{unnamed_client_faults}
use logsvc.Log.Wire.Every.{sendable-Delivered}
use logsvc.Tests.{stand_in, are_bytes_lem}

abbrev greeting : Message.Message
greeting = record { payload_length = 9; fh = file_handle_of 257; message = codes "hello" }

greeting-IsSendable : IsSendable (message greeting)
greeting-IsSendable = (
  refl,
  refl,
  record { small = omega arith; low0 = omega arith; low1 = omega arith; low2 = omega arith },
  omega arith,
)

sendable-Delivered_example : Delivered stand_in (message greeting)
sendable-Delivered_example = sendable-Delivered stand_in (message greeting) greeting-IsSendable

encode-decode_iff_example :
    (encode_32bit_int 66051 ≡ ok (0 ∷ 1 ∷ 2 ∷ 3 ∷ []))
    ↔ (decode_32bit_int (0 ∷ 1 ∷ 2 ∷ 3 ∷ []) ≡ ok 66051)
encode-decode_iff_example =
    encode-decode_iff 66051 (0 ∷ 1 ∷ 2 ∷ 3 ∷ []) (are_bytes_lem (0 ∷ 1 ∷ 2 ∷ 3 ∷ []) refl)

codec_rejects_example :
    ((2 ^ 32 ≤ 4294967296) ↔ (encode_32bit_int 4294967296 ≡ throw too_large))
    × ((length (codes "abc") ≢ 4) ↔ (decode_32bit_int (codes "abc") ≡ throw wrong_size))
codec_rejects_example = codec_rejects 4294967296 (codes "abc")

abbrev open_header : Bytes
open_header = start_seq ++ (codes "open" ++ (0 ∷ 0 ∷ 0 ∷ 8 ∷ []))

create_iff_example :
    (create stand_in open_header ≡ ok (file (File.of_length 8)))
    ↔ Announces open_header (file (File.of_length 8))
create_iff_example =
    create_iff stand_in open_header (file (File.of_length 8)) (are_bytes_lem open_header refl)

-- A message for the 200th file.
abbrev late : Message.Message
late = record { payload_length = 9; fh = file_handle_of 200; message = codes "hello" }

abbrev unnamed : Client.Client
unnamed = Client.of_name []

unnamed_client_faults_example :
    (payload : Bytes) × (Client.get_payload unnamed ≡ ok payload)
    × (Client.read_payload (Client.of_length 6) payload ≡ fault)
unnamed_client_faults_example = unnamed_client_faults unnamed (Client.of_length 6) refl refl
