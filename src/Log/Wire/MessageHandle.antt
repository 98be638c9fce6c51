-- ===== src/Log/Wire/MessageHandle.antt =====
-- The handle of a message on its way: `Message::read_payload` rebuilds it from signed characters.
use logsvc.Common.{ℕ, ◌+◌, ◌*◌, ◌%◌, ◌^◌, ◌<◌, ◌≡◌, refl, ◌∷◌, ◌++◌, length, arith, ◌∙◌, get_or}
use logsvc.Common.Bits.{bit_or_shifted, zero-bit_or}
use logsvc.Common.Text.{Bytes, IsByte}
use logsvc.Log.Codec.{sign_extend}
use logsvc.Log.Codec.RoundTrip.{bytes32, value32, value32-bytes32, encode_32bit_int_lem}
use logsvc.Log.Factory.Known.{mesg_kind}
use logsvc.Log.Objects.FileHandle as FileHandleObject
use logsvc.Log.Objects.Message
use logsvc.Log.Objects.Message.{read_handle, shifted_char}
use logsvc.Log.Receivable.{message, get_payload_length, read_payload}
use logsvc.Log.Wire.{IsPlain, IsSendable, Delivered, deliver}
use logsvc.Platform.{Platform}

shifted_first : (a : ℕ) (rest : Bytes) → a < 128 → shifted_char (a ∷ rest) 0 ≡ a
unfolding shifted_char sign_extend
shifted_first a rest h = ground arith

shifted_second : (a b : ℕ) (rest : Bytes) → b < 128 → shifted_char (a ∷ b ∷ rest) 1 ≡ b * 2 ^ 8
unfolding shifted_char sign_extend
shifted_second a b rest h = ground arith

shifted_third :
    (a b c : ℕ) (rest : Bytes) → c < 128 → shifted_char (a ∷ b ∷ c ∷ rest) 2 ≡ c * 2 ^ 16
unfolding shifted_char sign_extend
shifted_third a b c rest h = ground arith

-- The sign of the last byte is shifted out.
shifted_fourth :
    (a b c d : ℕ) (rest : Bytes) → IsByte d → shifted_char (a ∷ b ∷ c ∷ d ∷ rest) 3 ≡ d * 2 ^ 24
unfolding shifted_char sign_extend
shifted_fourth a b c d rest h = ground arith

read_plain :
    (a b c d : ℕ) (rest : Bytes)
    → a < 128
    → b < 128
    → c < 128
    → IsByte d
    → read_handle (a ∷ b ∷ c ∷ d ∷ rest) ≡ value32 a b c d
unfolding read_handle
read_plain a b c d rest ha hb hc hd = ground (
  arith,
  shifted_first a (b ∷ c ∷ d ∷ rest) ha,
  shifted_second a b (c ∷ d ∷ rest) hb,
  shifted_third a b c (d ∷ rest) hc,
  shifted_fourth a b c d rest hd,
  zero-bit_or a,
  bit_or_shifted 8 a b (omega arith),
  bit_or_shifted 16 (a + b * 2 ^ 8) c (omega arith),
  bit_or_shifted 24 (a + b * 2 ^ 8 + c * 2 ^ 16) d (omega arith),
)

-- The characters after the first are multiples of 256.
abbrev upper1 : Bytes → ℕ
upper1 payload = sign_extend 32 (get_or payload 1 0) % 2 ^ 24

abbrev upper2 : Bytes → ℕ
upper2 payload = (sign_extend 32 (get_or payload 2 0) % 2 ^ 16) * 2 ^ 8

abbrev upper3 : Bytes → ℕ
upper3 payload = (sign_extend 32 (get_or payload 3 0) % 2 ^ 8) * 2 ^ 16

read_handle-bytes32 : (n : ℕ) (text : Bytes) → IsPlain n → read_handle (bytes32 n ++ text) ≡ n
read_handle-bytes32 n text plain =
    read_plain _ _ _ _ text plain.low0 plain.low1 plain.low2 (omega arith)
    ∙ value32-bytes32 n plain.small

pub message-Delivered :
    (P : Platform) (m : Message.Message) → IsSendable (message m) → Delivered P (message m)
unfolding Message.get_header Message.get_payload FileHandleObject.get_payload get_payload_length
    read_payload Message.read_payload
message-Delivered P m (l, l', plain, small) =
    deliver P mesg_kind (4 + length m.message) (message m) (bytes32 m.fh.fh ++ m.message) small tt
      refl (rw (encode_32bit_int_lem m.fh.fh plain.small)) (omega arith)
      (ground (arith, read_handle-bytes32 m.fh.fh m.message plain))
