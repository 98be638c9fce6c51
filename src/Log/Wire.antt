-- ===== src/Log/Wire.antt =====
-- What is sent arrives: every object that a constructor makes is announced by its own header, and
-- reading its own payload into the announced object gives the object back.
pub mod MessageHandle
pub mod ClientInfo
pub mod Every
use logsvc.Common.{
  ℕ, ◌+◌, ◌*◌, ◌/◌, ◌%◌, ◌^◌, ◌≤◌, ◌<◌, ◌≡◌, ◌≢◌, refl, Option, none, some, [], ◌∷◌, ◌++◌, length,
  take, drop, if◌then◌else◌, arith, ◌∙◌, ap, sym, length-append, ltb, bit_or,
}
use logsvc.Common.Bits.{bit_or_shifted, zero-bit_or}
use logsvc.Common.Text.{Bytes, codes, bytes_eq, bytes_eq_refl}
use logsvc.Errors.{Result, ok, throw, map_ok}
use logsvc.Log.Codec.{encode_32bit_int, create_header, start_seq, sign_extend}
use logsvc.Log.Codec.RoundTrip.{bytes32, encode_32bit_int_lem, decode-bytes32}
use logsvc.Log.Factory.{create}
use logsvc.Log.Factory.Known.{
  Kind, open_kind, clos_kind, clnt_kind, disc_kind, mesg_kind, filh_kind, clnh_kind, ackn_kind,
  nack_kind, tag, Fits, fresh, create_known, create_header_lem, maker-fresh,
}
use logsvc.Log.Handles.{FileHandle, ClientHandle, file_handle_of, client_handle_of}
use logsvc.Log.Objects.Acknowledged
use logsvc.Log.Objects.Client
use logsvc.Log.Objects.ClientHandle as ClientHandleObject
use logsvc.Log.Objects.CloseFile
use logsvc.Log.Objects.Disconnect
use logsvc.Log.Objects.File
use logsvc.Log.Objects.FileHandle as FileHandleObject
use logsvc.Log.Objects.Message
use logsvc.Log.Objects.NotAcknowledged
use logsvc.Log.Receivable.{
  Receivable, acknowledged, not_acknowledged, client, client_handle, close_file, disconnect, file,
  file_handle, message, get_payload_length, read_payload, as_deliverable,
}
use logsvc.Platform.{Platform, Address, v4, v6}

-- The low three bytes of a handle are below 128, the values at which a signed `char` is positive.
pub record IsPlain (fh : ℕ) : Type 0 where
  pub small : fh < 2 ^ 32
  pub low0 : fh % 256 < 128
  pub low1 : (fh / 2 ^ 8) % 256 < 128
  pub low2 : (fh / 2 ^ 16) % 256 < 128

abbrev pub IsAddress : Address → Type 0
IsAddress (v4 bytes) = length bytes ≡ 4
IsAddress (v6 bytes) = length bytes ≡ 16

-- What the constructors of an object to send guarantee, with lengths and handles of 32 bits.
abbrev pub IsSendable : Receivable → Type 0
IsSendable (acknowledged a) = a.payload_length ≡ 0
IsSendable (not_acknowledged a) = (a.payload_length ≡ length a.reason) × (length a.reason < 2 ^ 32)
IsSendable (client c) =
    (c.payload_length ≡ 2 + Client.address_size c.its_ip + length c.its_name)
    × IsAddress c.its_ip
    × (0 < length c.its_name)
    × (length c.its_name + 18 < 2 ^ 32)
IsSendable (client_handle h) = (h.payload_length ≡ 4) × (h.ch < 2 ^ 32)
IsSendable (close_file c) =
    (c.payload_length ≡ 4) × (c.file_handle.payload_length ≡ 4) × (c.file_handle.fh < 2 ^ 32)
IsSendable (disconnect d) =
    (d.payload_length ≡ 4) × (ch : ℕ) × (d.client ≡ some (client_handle_of ch)) × (ch < 2 ^ 32)
IsSendable (file f) = (f.payload_length ≡ length f.filename) × (length f.filename < 2 ^ 32)
IsSendable (file_handle h) = (h.payload_length ≡ 4) × (h.fh < 2 ^ 32)
IsSendable (message m) =
    (m.payload_length ≡ 4 + length m.message)
    × (m.fh.payload_length ≡ 4)
    × IsPlain m.fh.fh
    × (4 + length m.message < 2 ^ 32)

-- The header and the payload that `r` sends, and what a receiver makes of them.
pub record Arrives (P : Platform) (r : Receivable) (header payload : Bytes) : Type 0 where
  pub sent_header : (as_deliverable r).get_header ≡ ok header
  pub sent_payload : (as_deliverable r).get_payload ≡ ok payload
  pub header_size : length header ≡ 12
  pub waiting : Receivable
  pub announced : create P header ≡ ok waiting
  pub payload_size : get_payload_length waiting ≡ length payload
  pub received : read_payload payload waiting ≡ ok r

abbrev pub Delivered : Platform → Receivable → Type 0
Delivered P r = (header : Bytes) × (payload : Bytes) × Arrives P r header payload

tag_size : (k : Kind) → length (tag k) ≡ 4
tag_size open_kind = refl
tag_size k = refl

header_bytes : (k : Kind) (n : ℕ) → length (start_seq ++ (tag k ++ bytes32 n)) ≡ 12
header_bytes open_kind n = refl
header_bytes k n = refl

pub deliver :
    (P : Platform) (k : Kind) (n : ℕ) (r : Receivable) (payload : Bytes)
    → n < 2 ^ 32
    → Fits k n
    → (as_deliverable r).get_header ≡ create_header (tag k) n
    → (as_deliverable r).get_payload ≡ ok payload
    → get_payload_length (fresh k n) ≡ length payload
    → read_payload payload (fresh k n) ≡ ok r
    → Delivered P r
deliver P k n r payload small fits h p l e = (
  start_seq ++ (tag k ++ bytes32 n),
  payload,
  record {
    sent_header = h ∙ create_header_lem (tag k) n (tag_size k) small;
    sent_payload = p;
    header_size = header_bytes k n;
    waiting = fresh k n;
    announced = create_known P k n small ∙ maker-fresh k n fits;
    payload_size = l;
    received = e;
  },
)

pub acknowledged-Delivered :
    (P : Platform) (a : Acknowledged.Acknowledged)
    → IsSendable (acknowledged a)
    → Delivered P (acknowledged a)
unfolding Acknowledged.get_header Acknowledged.get_payload get_payload_length read_payload
    Acknowledged.read_payload
acknowledged-Delivered P a h =
    deliver P ackn_kind 0 (acknowledged a) [] (omega arith) refl refl refl refl (ground arith)

pub not_acknowledged-Delivered :
    (P : Platform) (a : NotAcknowledged.NotAcknowledged)
    → IsSendable (not_acknowledged a)
    → Delivered P (not_acknowledged a)
unfolding NotAcknowledged.get_header NotAcknowledged.get_payload get_payload_length read_payload
    NotAcknowledged.read_payload
not_acknowledged-Delivered P a (l, small) =
    deliver P nack_kind (length a.reason) (not_acknowledged a) a.reason small tt refl refl refl
      (ground arith)

pub file-Delivered : (P : Platform) (f : File.File) → IsSendable (file f) → Delivered P (file f)
unfolding File.get_header File.get_payload get_payload_length read_payload File.read_payload
file-Delivered P f (l, small) =
    deliver P open_kind (length f.filename) (file f) f.filename small tt refl refl refl
      (ground arith)

pub file_handle-Delivered :
    (P : Platform) (h : FileHandle) → IsSendable (file_handle h) → Delivered P (file_handle h)
unfolding FileHandleObject.get_header FileHandleObject.get_payload get_payload_length read_payload
    FileHandleObject.read_payload
file_handle-Delivered P h (l, small) =
    deliver P filh_kind 4 (file_handle h) (bytes32 h.fh) (omega arith) refl refl
      (encode_32bit_int_lem h.fh small) refl (rw (decode-bytes32 h.fh small) (ground arith))

pub client_handle-Delivered :
    (P : Platform) (h : ClientHandle) → IsSendable (client_handle h) → Delivered P (client_handle h)
unfolding ClientHandleObject.get_header ClientHandleObject.get_payload get_payload_length
    read_payload ClientHandleObject.read_payload
client_handle-Delivered P h (l, small) =
    deliver P clnh_kind 4 (client_handle h) (bytes32 h.ch) (omega arith) refl refl
      (encode_32bit_int_lem h.ch small) refl (rw (decode-bytes32 h.ch small) (ground arith))

pub close_file-Delivered :
    (P : Platform) (c : CloseFile.CloseFile)
    → IsSendable (close_file c)
    → Delivered P (close_file c)
unfolding CloseFile.get_header CloseFile.get_payload get_payload_length read_payload
    CloseFile.read_payload FileHandleObject.get_payload FileHandleObject.read_payload
close_file-Delivered P c (l, l', small) =
    deliver P clos_kind 4 (close_file c) (bytes32 c.file_handle.fh) (omega arith) refl refl
      (encode_32bit_int_lem c.file_handle.fh small) refl
      (rw (decode-bytes32 c.file_handle.fh small) (ground arith))

pub disconnect-Delivered :
    (P : Platform) (d : Disconnect.Disconnect)
    → IsSendable (disconnect d)
    → Delivered P (disconnect d)
unfolding Disconnect.get_header Disconnect.get_payload get_payload_length read_payload
    Disconnect.read_payload ClientHandleObject.get_payload ClientHandleObject.read_payload
disconnect-Delivered P d (l, ch, e, small) =
    deliver P disc_kind 4 (disconnect d) (bytes32 ch) (omega arith) refl refl
      (rw (e, Disconnect.get_payload) (encode_32bit_int_lem ch small)) refl
      (rw (decode-bytes32 ch small) (ground arith))
