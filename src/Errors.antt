-- ===== src/Errors.antt =====
-- The exceptions that the program throws (log/MalformedHeader, log/UnknownProtocolObjectType,
-- logsvccpp/*Error, and those of the standard library), and code that may throw: the results of
-- functions, and actions on a state that a throw leaves as it was changed so far.
use logsvc.Common.{◌≡◌, refl, ◌⊎◌, inl, inr, Option, none, some, [], ◌∷◌, ◌++◌}
use logsvc.Common.Text.{Bytes, codes}

-- `boost::filesystem::path`, as its string.
abbrev pub FilePath : Type 0
FilePath = Bytes

pub data Exception : Type 0 where
  logic_error : Bytes → Exception
  runtime_error : Bytes → Exception
  -- thrown by boost::filesystem
  filesystem_error : Bytes → Exception
  malformed_header : Bytes → Exception
  unknown_protocol_object_type : Bytes → Exception
  open_file_error : FilePath → Bytes → Exception
  file_write_error : FilePath → Bytes → Exception
  socket_error : Bytes → Exception
  unable_to_connect_error : Option Bytes → Exception

abbrev pub quote : Bytes
quote = 34 ∷ []

-- The texts that the constructors give to std::runtime_error.
abbrev malformed_header_text : Bytes → Bytes
malformed_header_text what = what

abbrev unknown_protocol_object_type_text : Bytes → Bytes
unknown_protocol_object_type_text type_spec =
    codes "Encountered unknown protocol object type: " ++ quote ++ type_spec ++ quote

abbrev open_file_error_text : FilePath → Bytes → Bytes
open_file_error_text filename reason =
    codes "Failed to open file " ++ filename ++ codes ": " ++ reason

abbrev file_write_error_text : FilePath → Bytes → Bytes
file_write_error_text filename reason =
    codes "Unable to write to remote file " ++ quote ++ filename ++ quote ++ codes ": " ++ reason

abbrev socket_error_text : Bytes → Bytes
socket_error_text msg = codes "Socket error: " ++ msg

abbrev unable_to_connect_error_text : Option Bytes → Bytes
unable_to_connect_error_text none = codes "Unable to connect"
unable_to_connect_error_text (some s) = codes "Unable to connect: " ++ s

-- what()
unfoldable pub what : Exception → Bytes
what (logic_error s) = s
what (runtime_error s) = s
what (filesystem_error s) = s
what (malformed_header s) = malformed_header_text s
what (unknown_protocol_object_type type_spec) = unknown_protocol_object_type_text type_spec
what (open_file_error filename reason) = open_file_error_text filename reason
what (file_write_error filename reason) = file_write_error_text filename reason
what (socket_error msg) = socket_error_text msg
what (unable_to_connect_error s) = unable_to_connect_error_text s

-- A call returns, throws, or does not come back: `fault` is a failed assert, a null pointer that is
-- followed or an exception that leaves a destructor, which end the process, and a wait without end.
pub data Result {ℓ} (A : Type ℓ) : Type ℓ where
  ok : A → Result A
  throw : Exception → Result A
  fault : Result A

abbrev pub map_ok {ℓ κ} : {A : Type ℓ} {B : Type κ} → (A → B) → Result A → Result B
map_ok f (ok a) = ok (f a)
map_ok f (throw e) = throw e
map_ok f fault = fault

-- What comes after a call that returned.
infixl 5 ◌>>=◌ ◌>>◌
abbrev pub ◌>>=◌ {ℓ κ} : {A : Type ℓ} {B : Type κ} → Result A → (A → Result B) → Result B
(ok value) >>= next = next value
(throw e) >>= next = throw e
fault >>= next = fault

abbrev pub ◌>>◌ {ℓ} : {B : Type ℓ} → Result (Unit {0}) → Result B → Result B
first >> next = first >>= (λ _. next)

-- The ways in which a call can end.
pub Result-cases {ℓ} :
    {A : Type ℓ} (r : Result A)
    → ((a : A) × (r ≡ ok a)) ⊎ ((e : Exception) × (r ≡ throw e)) ⊎ (r ≡ fault)
Result-cases (ok a) = inl (a, refl)
Result-cases (throw e) = inr (inl (e, refl))
Result-cases fault = inr (inr refl)

-- What a chain that returned has run through.
pub >>=-eq-ok {ℓ κ} :
    {A : Type ℓ} {B : Type κ} (call : Result A) (next : A → Result B) {value : B}
    → (call >>= next) ≡ ok value
    → (a : A) × (call ≡ ok a) × (next a ≡ ok value)
>>=-eq-ok (ok a) next e = (a, refl, e)
>>=-eq-ok (throw x) next e = cc
>>=-eq-ok fault next e = cc
