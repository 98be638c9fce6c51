-- ===== src/Log/Factory/Known.antt =====
-- The kinds of protocol objects as protocol.txt lists them: a tag of four bytes, the length that
-- the payload must have, and the object that waits for it. The factory's table holds just these.
use logsvc.Common.{
  ℕ, ◌^◌, ◌<◌, ◌≡◌, ◌↔◌, All, All-drop, refl, true, inl, inr, Option, none, some, List, [], map,
  ◌∷◌, ◌++◌, length, take, drop, arith, ◌∙◌, ap, sym, Bool-cases,
}
use logsvc.Common.Map.{find, same, bytes_order, same_bytes}
use logsvc.Common.Text.{Bytes, codes, bytes_eq, bytes_lt, eq_of_bytes_eq, IsByte}
use logsvc.Errors.{Result, ok, ◌>>◌, >>=-eq-ok}
use logsvc.Log.Codec.{decode_32bit_int, create_header, start_seq}
use logsvc.Log.Codec.RoundTrip.{
  bytes32, encode_32bit_int_lem, decode-bytes32, encode-decode_iff, encoded_parts,
}
use logsvc.Log.Factory.{Creator, creators, call, create, check_payload_length}
use logsvc.Log.Handles.{file_handle_of, client_handle_of}
use logsvc.Log.Objects.Acknowledged
use logsvc.Log.Objects.Client
use logsvc.Log.Objects.CloseFile
use logsvc.Log.Objects.Disconnect
use logsvc.Log.Objects.File
use logsvc.Log.Objects.Message
use logsvc.Log.Objects.NotAcknowledged
use logsvc.Log.Receivable.{
  Receivable, acknowledged, not_acknowledged, client, client_handle, close_file, disconnect, file,
  file_handle, message,
}
use logsvc.Platform.{Platform, value_or}

pub data Kind : Type 0 where
  open_kind clos_kind clnt_kind disc_kind mesg_kind filh_kind clnh_kind ackn_kind nack_kind : Kind

abbrev pub tag : Kind → Bytes
tag open_kind = codes "open"
tag clos_kind = codes "clos"
tag clnt_kind = codes "clnt"
tag disc_kind = codes "disc"
tag mesg_kind = codes "mesg"
tag filh_kind = codes "filh"
tag clnh_kind = codes "clnh"
tag ackn_kind = codes "ackn"
tag nack_kind = codes "nack"

-- The length that the payload of a kind must have, where the protocol fixes it.
abbrev pub Fits : Kind → ℕ → Type 0
Fits clos_kind n = n ≡ 4
Fits disc_kind n = n ≡ 4
Fits filh_kind n = n ≡ 4
Fits clnh_kind n = n ≡ 4
Fits ackn_kind n = n ≡ 0
Fits _ n = Unit

abbrev pub fresh : Kind → ℕ → Receivable
fresh open_kind n = file (File.of_length n)
fresh clos_kind n = close_file CloseFile.empty
fresh clnt_kind n = client (Client.of_length n)
fresh disc_kind n = disconnect Disconnect.empty
fresh mesg_kind n = message (Message.of_length n)
fresh filh_kind n = file_handle (file_handle_of 0)
fresh clnh_kind n = client_handle (client_handle_of 0)
fresh ackn_kind n = acknowledged Acknowledged.acknowledged
fresh nack_kind n = not_acknowledged (NotAcknowledged.of_length n)

-- The table's entry for a kind.
abbrev pub maker : Kind → ℕ → Result Receivable
maker clos_kind n = check_payload_length n 4 (tag clos_kind) >> ok (fresh clos_kind n)
maker disc_kind n = check_payload_length n 4 (tag disc_kind) >> ok (fresh disc_kind n)
maker filh_kind n = check_payload_length n 4 (tag filh_kind) >> ok (fresh filh_kind n)
maker clnh_kind n = check_payload_length n 4 (tag clnh_kind) >> ok (fresh clnh_kind n)
maker ackn_kind n = check_payload_length n 0 (tag ackn_kind) >> ok (fresh ackn_kind n)
maker k n = ok (fresh k n)

abbrev entry : Kind → Bytes × Creator
entry k = (tag k, some (maker k))

creators_known : (k : Kind) → find bytes_order (tag k) creators ≡ some (some (maker k))
unfolding creators find same bytes_lt
creators_known open_kind = refl
creators_known _ = refl

abbrev all_kinds : List Kind
all_kinds =
    ackn_kind ∷ clnh_kind ∷ clnt_kind ∷ clos_kind ∷ disc_kind ∷ filh_kind ∷ mesg_kind ∷ nack_kind
    ∷ open_kind ∷ []

-- The table in the order of its keys.
creators_sorted : creators ≡ map entry all_kinds
unfolding creators find same bytes_lt
creators_sorted = refl

find-entries :
    (ks : List Kind) (t : Bytes) (c : Creator)
    → find bytes_order t (map entry ks) ≡ some c
    → (k : Kind) × (t ≡ tag k) × (c ≡ some (maker k))
unfolding find
find-entries [] t c e = absurd (cc)
find-entries (k ∷ ks) t c e = elim (Bool-cases (same bytes_order (tag k) t)) [
  | inl hit ↦
      let h : bytes_eq (tag k) t ≡ true = sym (same_bytes (tag k) t) ∙ hit in
      (k, sym (eq_of_bytes_eq (tag k) t h), ground arith)
  | inr miss ↦ find-entries ks t c (ground arith)
]

creators_complete :
    (t : Bytes) (c : Creator)
    → find bytes_order t creators ≡ some c
    → (k : Kind) × (t ≡ tag k) × (c ≡ some (maker k))
creators_complete t c e = find-entries all_kinds t c (rw creators_sorted at e)

maker-Fits : (k : Kind) (n : ℕ) (r : Receivable) → maker k n ≡ ok r → Fits k n × (r ≡ fresh k n)
unfolding check_payload_length
maker-Fits open_kind n r e = ground arith
maker-Fits k n r e = ground arith

pub maker-fresh : (k : Kind) (n : ℕ) → Fits k n → maker k n ≡ ok (fresh k n)
unfolding check_payload_length
maker-fresh open_kind n h = refl
maker-fresh k n h = ground arith

abbrev found : Platform → Bytes → Creator
found P header = P.lookup Bytes Creator bytes_order (take 4 (drop 4 header)) creators none

pub create_header_lem :
    (type : Bytes) (n : ℕ)
    → length type ≡ 4
    → n < 2 ^ 32
    → create_header type n ≡ ok (start_seq ++ (type ++ bytes32 n))
unfolding create_header
create_header_lem type n l h = rw (l, encode_32bit_int_lem n h)

-- A four-byte type that the table holds.
pub create_known :
    (P : Platform) (k : Kind) (n : ℕ)
    → n < 2 ^ 32
    → create P (start_seq ++ (tag k ++ bytes32 n)) ≡ maker k n
unfolding create bytes_eq
create_known P open_kind n h = rw (P.lookup_lem, creators_known open_kind, decode-bytes32 n h)
create_known P k n h = rw (P.lookup_lem, creators_known k, decode-bytes32 n h)

-- The guards that a successful call has passed.
create_guards :
    (P : Platform) (header : Bytes) (r : Receivable)
    → create P header ≡ ok r
    → (take 4 header ≡ start_seq)
      × (call (take 4 (drop 4 header)) (found P header) (drop 8 header) ≡ ok r)
unfolding create
create_guards P header r e = ground (arith, eq_of_bytes_eq (take 4 header) start_seq)

call_parts :
    (t : Bytes) (c : Creator) (rest : Bytes) (r : Receivable)
    → call t c rest ≡ ok r
    → (make : ℕ → Result Receivable) × (n : ℕ) × (c ≡ some make)
      × (decode_32bit_int rest ≡ ok n)
      × (make n ≡ ok r)
unfolding call
call_parts t none rest r e = cc
call_parts t (some make) rest r e =
    let (n, d, m) = >>=-eq-ok (decode_32bit_int rest) make e in (make, n, refl, d, m)

header_parts :
    (header : Bytes) → take 4 header ++ (take 4 (drop 4 header) ++ drop 8 header) ≡ header
header_parts (a ∷ b ∷ c ∷ d ∷ e ∷ f ∷ g ∷ h ∷ rest) = refl
header_parts header = refl

value_or-some :
    (o : Option Creator) (make : ℕ → Result Receivable)
    → value_or none o ≡ some make
    → o ≡ some (some make)
value_or-some none make e = cc
value_or-some (some c) make e = ap some e

-- A header as protocol.txt describes it, the start sequence, the tag of a kind, and in four bytes
-- a length that fits the kind, with the object that waits for the payload.
pub record Announces (header : Bytes) (r : Receivable) : Type 0 where
  pub kind : Kind
  pub size : ℕ
  pub small : size < 2 ^ 32
  pub fits : Fits kind size
  pub bytes : header ≡ start_seq ++ (tag kind ++ bytes32 size)
  pub object : r ≡ fresh kind size

create→Announces :
    (P : Platform) (header : Bytes) (r : Receivable)
    → All IsByte header
    → create P header ≡ ok r
    → Announces header r
create→Announces P header r bytes e =
    let (start, called) = create_guards P header r e in
    let (make, n, is_some, decoded, made) =
      call_parts (take 4 (drop 4 header)) (found P header) (drop 8 header) r called in
    let (k, t, c) =
      creators_complete (take 4 (drop 4 header)) (some make)
        (value_or-some _ make (sym (P.lookup_lem _ _ _ _ _ _) ∙ is_some)) in
    let encoded =
      (encode-decode_iff n (drop 8 header) (All-drop IsByte 8 header bytes)).1 decoded in
    let (small, rest) = encoded_parts n (drop 8 header) encoded in
    let fit = maker-Fits k n r (cc (made, c)) in
    record {
      kind = k;
      size = n;
      small = small;
      fits = fit.0;
      bytes = sym (header_parts header) ∙ cc (start, t, rest);
      object = fit.1;
    }

-- `create` succeeds exactly on the headers that protocol.txt describes: the start sequence, the tag
-- of a kind, and in four bytes a length that fits the kind. It gives the fresh object of the kind.
pub create_iff :
    (P : Platform) (header : Bytes) (r : Receivable)
    → All IsByte header
    → (create P header ≡ ok r) ↔ Announces header r
create_iff P header r bytes = (
  create→Announces P header r bytes,
  λ a.
      rw (a.bytes, create_known P a.kind a.size a.small, a.object)
        (maker-fresh a.kind a.size a.fits),
)
