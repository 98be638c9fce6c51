-- ===== src/Log/Factory.antt =====
-- log/ProtObjFactory.cpp: from a header to the object whose payload follows.
pub mod Known
use logsvc.Common.{
  ℕ, ◌+◌, String, Bool, Option, none, some, [], ◌++◌, not, ◌==◌, length, take, drop, if◌then◌else◌,
}
use logsvc.Common.Map.{Map, assign, bytes_order}
use logsvc.Common.Text.{Bytes, codes, bytes_eq, decimal}
use logsvc.Errors.{
  Result, ok, throw, logic_error, malformed_header, unknown_protocol_object_type, quote, map_ok,
  ◌>>=◌, ◌>>◌,
}
use logsvc.Log.Codec.{decode_32bit_int, start_seq}
use logsvc.Log.Handles.{file_handle_of, client_handle_of}
use logsvc.Log.Objects.Acknowledged
use logsvc.Log.Objects.Client
use logsvc.Log.Objects.CloseFile
use logsvc.Log.Objects.Disconnect
use logsvc.Log.Objects.File
use logsvc.Log.Objects.Message
use logsvc.Log.Objects.NotAcknowledged
use logsvc.Log.Receivable.{
  Receivable, acknowledged, not_acknowledged, client, client_handle, close_file, disconnect, file,
  file_handle, message,
}
use logsvc.Platform.{Platform}

unfoldable pub check_payload_length : ℕ → ℕ → Bytes → Result (Unit {0})
check_payload_length actual expected cmd =
    if actual == expected
    then ok tt
    else throw (
        malformed_header (
          codes "Malformed header format: Incorrect payload length for command "
          ++ quote
          ++ cmd
          ++ quote
          ++ codes ".  Expected "
          ++ decimal expected
          ++ codes ", was "
          ++ decimal actual
          ++ codes "."))

-- std::function<Receivable* (std::size_t)>, which may hold no function
abbrev pub Creator : Type 0
Creator = Option (ℕ → Result Receivable)

abbrev pub fixed : ℕ → Bytes → Receivable → Creator
fixed expected cmd r = some (λ pl. do check_payload_length pl expected cmd; ok r)

-- creators[cmd] = f;
register : String → Creator → Map Bytes Creator → Map Bytes Creator
register cmd f = assign bytes_order (codes cmd) f

-- ProtObjFactory(): creators["open"] = …; creators["mesg"] = …; and so on
pub creators : Map Bytes Creator
unfolding assign register
creators =
    let c0 = register "open" (some (λ pl. ok (file (File.of_length pl)))) [] in
    let c1 = register "mesg" (some (λ pl. ok (message (Message.of_length pl)))) c0 in
    let c2 = register "filh" (fixed 4 (codes "filh") (file_handle (file_handle_of 0))) c1 in
    let c3 = register "clos" (fixed 4 (codes "clos") (close_file CloseFile.empty)) c2 in
    let c4 = register "clnh" (fixed 4 (codes "clnh") (client_handle (client_handle_of 0))) c3 in
    let c5 = register "ackn" (fixed 0 (codes "ackn") (acknowledged Acknowledged.acknowledged)) c4 in
    let c6 =
      register "nack" (some (λ pl. ok (not_acknowledged (NotAcknowledged.of_length pl)))) c5 in
    let c7 = register "clnt" (some (λ pl. ok (client (Client.of_length pl)))) c6 in
    register "disc" (fixed 4 (codes "disc") (disconnect Disconnect.empty)) c7

call : Bytes → Creator → Bytes → Result Receivable
call typespec none rest = throw (unknown_protocol_object_type typespec)
call typespec (some create_fun) rest = do
  payload_length ← decode_32bit_int rest
  create_fun payload_length

unfoldable pub create : Platform → Bytes → Result Receivable
unfolding creators call
create P header =
    let typespec = take 4 (drop 4 header) in
    if not (length header == 12)
    then throw (logic_error (codes "Wrong number of bytes in header."))
    else if not (bytes_eq (take 4 header) start_seq)
    then throw (
        malformed_header (
          codes "Malformed header format: Missing start sequence "
          ++ quote
          ++ codes "logs"
          ++ quote
          ++ codes "."))
    else call typespec (P.lookup Bytes Creator bytes_order typespec creators none) (drop 8 header)
