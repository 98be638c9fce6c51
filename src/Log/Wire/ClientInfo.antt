-- ===== src/Log/Wire/ClientInfo.antt =====
-- The client's name and address on their way, which `Client::read_payload` cuts from the payload.
use logsvc.Common.{
  ℕ, ◌+◌, ◌<◌, ◌≡◌, refl, [], ◌++◌, length, arith, length-append, take-append, drop-append,
}
use logsvc.Common.Text.{Bytes, codes, bytes_eq}
use logsvc.Errors.{ok, fault}
use logsvc.Log.Factory.Known.{clnt_kind}
use logsvc.Log.Objects.Client
use logsvc.Log.Receivable.{client, get_payload_length, read_payload}
use logsvc.Log.Wire.{IsSendable, IsAddress, Delivered, deliver}
use logsvc.Platform.{Platform, Address, v4, v6}

read_v4 :
    (c : Client.Client) (bytes name : Bytes)
    → length bytes ≡ 4
    → 0 < length name
    → Client.read_payload c (codes "v4" ++ (bytes ++ name))
      ≡ ok (record c { its_ip = v4 bytes; its_name = name })
unfolding Client.read_payload bytes_eq
read_v4 c bytes name h nonempty =
    ground (arith, take-append bytes name 4 h, drop-append bytes name 4 h, length-append bytes name)

read_v6 :
    (c : Client.Client) (bytes name : Bytes)
    → length bytes ≡ 16
    → 0 < length name
    → Client.read_payload c (codes "v6" ++ (bytes ++ name))
      ≡ ok (record c { its_ip = v6 bytes; its_name = name })
unfolding Client.read_payload bytes_eq
read_v6 c bytes name h nonempty =
    ground
      (arith, take-append bytes name 16 h, drop-append bytes name 16 h, length-append bytes name)

by_address :
    (P : Platform) (l : ℕ) (name : Bytes) (ip : Address)
    → IsSendable (client (record { payload_length = l; its_name = name; its_ip = ip }))
    → Delivered P (client (record { payload_length = l; its_name = name; its_ip = ip }))
unfolding Client.get_header Client.get_payload get_payload_length read_payload
by_address P l name (v4 bytes) (e, size, nonempty, small) =
    deliver P clnt_kind (2 + 4 + length name) _ (codes "v4" ++ (bytes ++ name)) (omega arith) tt
      refl refl (omega (arith, length-append bytes name))
      (ground (arith, read_v4 (Client.of_length (2 + 4 + length name)) bytes name size nonempty))
by_address P l name (v6 bytes) (e, size, nonempty, small) =
    deliver P clnt_kind (2 + 16 + length name) _ (codes "v6" ++ (bytes ++ name)) (omega arith) tt
      refl refl (omega (arith, length-append bytes name))
      (ground (arith, read_v6 (Client.of_length (2 + 16 + length name)) bytes name size nonempty))

pub client-Delivered :
    (P : Platform) (c : Client.Client) → IsSendable (client c) → Delivered P (client c)
client-Delivered P c h = by_address P c.payload_length c.its_name c.its_ip h

unnamed_address :
    (ip : Address) (l : ℕ) (waiting : Client.Client)
    → IsAddress ip
    → (payload : Bytes) × (Client.get_payload
          (record { payload_length = l; its_name = []; its_ip = ip })
        ≡ ok payload)
      × (Client.read_payload waiting payload ≡ fault)
unfolding Client.get_payload Client.read_payload bytes_eq
unnamed_address (v4 bytes) l waiting size =
    (codes "v4" ++ (bytes ++ []), refl, ground (arith, length-append bytes []))
unnamed_address (v6 bytes) l waiting size =
    (codes "v6" ++ (bytes ++ []), refl, ground (arith, length-append bytes []))

-- A client without a name sends an address that ends its payload, and the receiver's assert that
-- more follows fails, on IPv4 and on IPv6.
pub unnamed_client_faults :
    (c waiting : Client.Client)
    → IsAddress c.its_ip
    → c.its_name ≡ []
    → (payload : Bytes) × (Client.get_payload c ≡ ok payload)
      × (Client.read_payload waiting payload ≡ fault)
unnamed_client_faults c waiting size e =
    rw (← e) at (unnamed_address c.its_ip c.payload_length waiting size)
