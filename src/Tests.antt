-- ===== src/Tests.antt =====
-- Stand-ins for the libraries, with a disk that is a map from paths to contents, and the examples.
pub mod Log
pub mod Daemon
pub mod Network
pub mod Clients
pub mod Remote
use logsvc.Common.{
  ℕ, ◌≡◌, refl, ◌%◌, Bool, true, false, Option, none, some, List, [], ◌∷◌, ◌++◌, length,
  if◌then◌else◌, ltb, ltb→lt, All, Bool-cases, inl, inr, arith,
}
use logsvc.Common.Map.{Map, find, assign, bytes_order}
use logsvc.Common.Text.{Bytes, IsByte, codes, bytes_eq}
use logsvc.Errors.{FilePath, Result, ok, throw, filesystem_error}
use logsvc.Log.Objects.Client.{localhost}
use logsvc.Platform.{Platform, PTime, Address, v4, v6, value_or}

-- Noon of a day, and as many seconds as the clock has been read.
abbrev pub noon : ℕ → PTime
noon n = record {
  year = 2013;
  month = 5;
  day = 17;
  hours = 12;
  minutes = 0;
  seconds = n % 60;
  fractional_seconds = 123456;
}

abbrev pub is_there : Option Bytes → Bool
is_there none = false
is_there (some contents) = true

-- One path cannot be looked at.
abbrev pub forbidden : FilePath
forbidden = codes "/root/x"

abbrev pub stand_in : Platform
stand_in = record {
  Disk = Map FilePath Bytes;
  exists = λ disk p.
      if bytes_eq p forbidden
      then throw (filesystem_error (codes "Permission denied"))
      else ok (is_there (find bytes_order p disk));
  create = λ disk p. assign bytes_order p [] disk;
  append = λ disk p s. assign bytes_order p (value_or [] (find bytes_order p disk) ++ s) disk;
  path_order = bytes_order;
  lookup = λ K V o k m d. value_or d (find o k m);
  lookup_lem = λ K V o k m d. refl;
  local_time = noon;
  resolution = 5;
  to_string = λ a. codes "127.0.0.1";
  from_string = λ s. ok localhost;
}

abbrev pub are_bytes : Bytes → Bool
are_bytes [] = true
are_bytes (b ∷ bs) = if ltb b 256 then are_bytes bs else false

-- The test for bytes decides.
pub are_bytes_lem : (bs : Bytes) → are_bytes bs ≡ true → All IsByte bs
are_bytes_lem [] h = tt
are_bytes_lem (b ∷ bs) h = elim (Bool-cases (ltb b 256)) [
  | inl small ↦ (ltb→lt b 256 small, are_bytes_lem bs (rw small at h))
  | inr large ↦ ground (arith, h, large)
]
