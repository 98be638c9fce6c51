-- ===== src/Log/Codec.antt =====
-- log/int_codec.cpp and log/create_header.cpp: little-endian 32-bit numbers and message headers.
-- `std::size_t` has 64 bits, and `char` is signed: it widens by copies of its sign bit.
pub mod RoundTrip
use logsvc.Common.{
  ℕ, zero, suc, ◌+◌, ◌-◌, ◌*◌, ◌/◌, ◌%◌, ◌^◌, [], ◌∷◌, ◌++◌, bit_and, bit_or, ltb, ◌==◌, length,
  get_or, if◌then◌else◌,
}
use logsvc.Common.Text.{Bytes, codes}
use logsvc.Errors.{Exception, Result, ok, throw, logic_error, ◌>>=◌}

-- A `char` as a number of `w` bits.
unfoldable pub sign_extend : ℕ → ℕ → ℕ
sign_extend w c = if ltb c 128 then c else 2 ^ w - 256 + c

abbrev pub too_large : Exception
too_large = logic_error (codes "encode_32bit_int can not encode integers larger than 32 bit.")

abbrev pub wrong_size : Exception
wrong_size = logic_error (codes "decode_32bit_int requires string size 4.")

-- for (int i = 0; i < 4; ++i) encoded.push_back((integer >> (i * 8)) & 0xFF);
encode_loop : ℕ → ℕ → ℕ → Bytes → Bytes
encode_loop zero i integer encoded = encoded
encode_loop (suc rounds) i integer encoded =
    encode_loop rounds (i + 1) integer (encoded ++ bit_and (integer / 2 ^ (i * 8)) 0xff ∷ [])

unfoldable pub encode_32bit_int : ℕ → Result Bytes
unfolding encode_loop
encode_32bit_int integer =
    if ltb 0xffff_ffff integer then throw too_large else ok (encode_loop 4 0 integer [])

-- for (int i = 0; i < 4; ++i)
--   decoded |= (static_cast<std::size_t>(encoded[i]) & 0xff) << (i * 8);
decode_loop : ℕ → ℕ → Bytes → ℕ → ℕ
decode_loop zero i encoded decoded = decoded
decode_loop (suc rounds) i encoded decoded =
    decode_loop rounds (i + 1) encoded
      (bit_or decoded (bit_and (sign_extend 64 (get_or encoded i 0)) 0xff * 2 ^ (i * 8)))

unfoldable pub decode_32bit_int : Bytes → Result ℕ
unfolding decode_loop
decode_32bit_int encoded =
    if length encoded == 4 then ok (decode_loop 4 0 encoded 0) else throw wrong_size

abbrev pub start_seq : Bytes
start_seq = codes "logs"

unfoldable pub create_header : Bytes → ℕ → Result Bytes
create_header type length_ =
    if length type == 4
    then (do encoded ← encode_32bit_int length_; ok (start_seq ++ (type ++ encoded)))
    else throw (logic_error (codes "Protocol object type must be 4 characters long"))
