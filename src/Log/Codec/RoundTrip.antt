-- ===== src/Log/Codec/RoundTrip.antt =====
-- What `encode_32bit_int` and `decode_32bit_int` promise each other.
use logsvc.Common.{
  ℕ, ◌+◌, ◌*◌, ◌/◌, ◌%◌, ◌^◌, ◌<◌, ◌≤◌, ◌≡◌, ◌∙◌, ◌≢◌, ◌↔◌, inl, inr, [], ◌∷◌, bit_and, ltb, length,
  arith, ap, Bool-cases, ltb→lt, All, lt→ltb, not_lt→ltb,
}
use logsvc.Common.Bits.{bit_and_byte, bit_or_shifted, zero-bit_or}
use logsvc.Common.Text.{Bytes, IsByte}
use logsvc.Errors.{ok, throw}
use logsvc.Log.Codec.{too_large, wrong_size, encode_32bit_int, decode_32bit_int, sign_extend}

-- The four bytes, lowest first.
abbrev pub bytes32 : ℕ → Bytes
bytes32 n = n % 256 ∷ (n / 2 ^ 8) % 256 ∷ (n / 2 ^ 16) % 256 ∷ (n / 2 ^ 24) % 256 ∷ []

abbrev pub value32 : ℕ → ℕ → ℕ → ℕ → ℕ
value32 a b c d = a + b * 2 ^ 8 + c * 2 ^ 16 + d * 2 ^ 24

pub encode_32bit_int_lem : (n : ℕ) → n < 2 ^ 32 → encode_32bit_int n ≡ ok (bytes32 n)
unfolding encode_32bit_int
encode_32bit_int_lem n h =
    rw (not_lt→ltb 0xffff_ffff n (omega arith)) (simp bit_and_byte (ground arith))

sign_extend_byte : (c : ℕ) → c < 256 → bit_and (sign_extend 64 c) 0xff ≡ c
unfolding sign_extend
sign_extend_byte c h = rw bit_and_byte (ground arith)

pub decode_32bit_int_lem :
    (a b c d : ℕ)
    → IsByte a
    → IsByte b
    → IsByte c
    → IsByte d
    → decode_32bit_int (a ∷ b ∷ c ∷ d ∷ []) ≡ ok (value32 a b c d)
unfolding decode_32bit_int
decode_32bit_int_lem a b c d ha hb hc hd = ground (
  arith,
  sign_extend_byte a ha,
  sign_extend_byte b hb,
  sign_extend_byte c hc,
  sign_extend_byte d hd,
  zero-bit_or (a * 1),
  bit_or_shifted 8 a b ha,
  bit_or_shifted 16 (a + b * 2 ^ 8) c (omega arith),
  bit_or_shifted 24 (a + b * 2 ^ 8 + c * 2 ^ 16) d (omega arith),
)

bytes32-value32 :
    (a b c d : ℕ)
    → IsByte a
    → IsByte b
    → IsByte c
    → IsByte d
    → bytes32 (value32 a b c d) ≡ a ∷ b ∷ c ∷ d ∷ []
bytes32-value32 a b c d ha hb hc hd = ground arith

pub value32-bytes32 :
    (n : ℕ)
    → n < 2 ^ 32
    → value32 (n % 256) ((n / 2 ^ 8) % 256) ((n / 2 ^ 16) % 256) ((n / 2 ^ 24) % 256) ≡ n
value32-bytes32 n h = omega arith

encode_32bit_int_large : (n : ℕ) → 2 ^ 32 ≤ n → encode_32bit_int n ≡ throw too_large
unfolding encode_32bit_int
encode_32bit_int_large n h = rw (lt→ltb 0xffff_ffff n (omega arith))

decode_32bit_int_size : (bs : Bytes) → length bs ≢ 4 → decode_32bit_int bs ≡ throw wrong_size
unfolding decode_32bit_int
decode_32bit_int_size bs h = ground arith

pub decode-bytes32 : (n : ℕ) → n < 2 ^ 32 → decode_32bit_int (bytes32 n) ≡ ok n
decode-bytes32 n h =
    decode_32bit_int_lem _ _ _ _ (omega arith) (omega arith) (omega arith) (omega arith)
    ∙ ap ok (value32-bytes32 n h)

encode→decode :
    (n : ℕ) (encoded : Bytes) → encode_32bit_int n ≡ ok encoded → decode_32bit_int encoded ≡ ok n
encode→decode n encoded e = elim (Bool-cases (ltb n (2 ^ 32))) [
  | inl small ↦
      let p : bytes32 n ≡ encoded = cc (encode_32bit_int_lem n (ltb→lt _ _ small)) in
      rw (← p) (decode-bytes32 n (ltb→lt _ _ small))
  | inr large ↦ cc (encode_32bit_int_large n (ground arith))
]

pub encoded_parts :
    (n : ℕ) (encoded : Bytes)
    → encode_32bit_int n ≡ ok encoded
    → (n < 2 ^ 32) × (encoded ≡ bytes32 n)
encoded_parts n encoded e = elim (Bool-cases (ltb n (2 ^ 32))) [
  | inl small ↦ (ltb→lt _ _ small, cc (encode_32bit_int_lem n (ltb→lt _ _ small)))
  | inr large ↦ cc (encode_32bit_int_large n (ground arith))
]

decode→encode :
    (n : ℕ) (encoded : Bytes)
    → All IsByte encoded
    → decode_32bit_int encoded ≡ ok n
    → encode_32bit_int n ≡ ok encoded
decode→encode n (a ∷ b ∷ c ∷ d ∷ []) h e =
    let (ha, t) = h in
    let (hb, u) = t in
    let (hc, v) = u in
    let hd = v.0 in
    let p : value32 a b c d ≡ n = cc (decode_32bit_int_lem a b c d ha hb hc hd) in
    rw (← p) (
      encode_32bit_int_lem (value32 a b c d) (omega arith)
      ∙ ap ok (bytes32-value32 a b c d ha hb hc hd))
decode→encode n encoded bytes e = cc (decode_32bit_int_size encoded (λ l. omega arith))

-- The two routines are inverse partial functions: over bytes, `encode_32bit_int` gives a string for
-- a number exactly when `decode_32bit_int` gives the number for the string.
pub encode-decode_iff :
    (n : ℕ) (encoded : Bytes)
    → All IsByte encoded
    → (encode_32bit_int n ≡ ok encoded) ↔ (decode_32bit_int encoded ≡ ok n)
encode-decode_iff n encoded bytes = (encode→decode n encoded, decode→encode n encoded bytes)

large_of_throw : (n : ℕ) → encode_32bit_int n ≡ throw too_large → 2 ^ 32 ≤ n
unfolding encode_32bit_int
large_of_throw n e = ground arith

size_of_throw : (bs : Bytes) → decode_32bit_int bs ≡ throw wrong_size → length bs ≢ 4
unfolding decode_32bit_int
size_of_throw bs e l = ground arith

-- Numbers of more than 32 bits are refused, and so are strings of any other size than 4.
pub codec_rejects :
    (n : ℕ) (encoded : Bytes)
    → ((2 ^ 32 ≤ n) ↔ (encode_32bit_int n ≡ throw too_large))
      × ((length encoded ≢ 4) ↔ (decode_32bit_int encoded ≡ throw wrong_size))
codec_rejects n encoded = (
  (encode_32bit_int_large n, large_of_throw n),
  (decode_32bit_int_size encoded, size_of_throw encoded),
)
