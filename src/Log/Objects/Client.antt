-- ===== src/Log/Objects/Client.antt =====
-- log/Client.cpp: the client's name and address.
use logsvc.Common.{ℕ, ◌+◌, Option, some, [], ◌∷◌, ◌++◌, not, ltb, length, take, drop, if◌then◌else◌}
use logsvc.Common.Text.{Bytes, codes, bytes_eq}
use logsvc.Errors.{Result, ok, fault, what}
use logsvc.Exec.{Exec, pure, attempt, ◌>>=◌}
use logsvc.Log.Codec.{create_header}
use logsvc.Log.Interfaces.{Deliverable, Executor, ClientExecutor}
use logsvc.Log.Objects.ClientHandle as ClientHandleObject
use logsvc.Log.Objects.NotAcknowledged
use logsvc.Platform.{Platform, Address, v4, v6}

pub record Client : Type 0 where
  pub payload_length : ℕ
  pub its_name : Bytes
  pub its_ip : Address

abbrev pub localhost : Address
localhost = v4 (127 ∷ 0 ∷ 0 ∷ 1 ∷ [])

-- Client(std::size_t payload_length)
abbrev pub of_length : ℕ → Client
of_length payload_length = record {
  payload_length = payload_length;
  its_name = codes "unnamed";
  its_ip = localhost;
}

abbrev pub address_size : Address → ℕ
address_size (v4 bytes) = 4
address_size (v6 bytes) = 16

-- Client(const std::string& name)
abbrev pub of_name : Bytes → Client
of_name name = record { payload_length = 2 + 4 + length name; its_name = name; its_ip = localhost }

-- Client(const std::string& name, const boost::asio::ip::address& ip)
abbrev pub of_name_ip : Bytes → Address → Client
of_name_ip name ip = record {
  payload_length = 2 + address_size ip + length name;
  its_name = name;
  its_ip = ip;
}

abbrev pub get_name : Client → Bytes
get_name c = c.its_name

abbrev pub get_ip_address : Client → Address
get_ip_address c = c.its_ip

unfoldable pub read_payload : Client → Bytes → Result Client
read_payload c payload =
    let version = take 2 payload in
    if not (ltb 2 (length payload))
    then fault
    else if bytes_eq version (codes "v4")
    then (if ltb 6 (length payload)
        then ok (record c { its_ip = v4 (take 4 (drop 2 payload)); its_name = drop 6 payload })
        else fault)
    else if bytes_eq version (codes "v6")
    then (if ltb 18 (length payload)
        then ok (record c { its_ip = v6 (take 16 (drop 2 payload)); its_name = drop 18 payload })
        else fault)
    else ok c

unfoldable pub get_header : Client → Result Bytes
get_header c = create_header (codes "clnt") (2 + address_size c.its_ip + length c.its_name)

address_bytes : Address → Bytes
address_bytes (v4 bytes) = codes "v4" ++ bytes
address_bytes (v6 bytes) = codes "v6" ++ bytes

unfoldable pub get_payload : Client → Result Bytes
unfolding address_bytes
get_payload c = ok (address_bytes c.its_ip ++ c.its_name)

abbrev pub deliverable : Client → Deliverable
deliverable c = record { get_header = get_header c; get_payload = get_payload c }

module _ {S : Type 0} where
  unfoldable pub act : Platform → Executor S → Client → Exec S (Option Deliverable)
  act P exec c =
      attempt
        (do
          ch ← exec.set_client_info c.its_name (P.to_string c.its_ip)
          pure (some (ClientHandleObject.deliverable ch)))
        (λ e. pure (some (NotAcknowledged.deliverable (NotAcknowledged.of_reason (what e)))))

  unfoldable pub act_client : ClientExecutor S → Client → S → S
  act_client exec c s = s
