-- ===== src/Platform.antt =====
-- The libraries that the program calls and does not contain: boost::filesystem and its streams,
-- boost::asio's addresses, boost::posix_time, and egen::lookup. What the code relies on is a field
-- each; what stands for a state of the outside world is `Disk`, and the readings of the clock.
use logsvc.Common.{ℕ, ◌≡◌, Bool, Option, none, some}
use logsvc.Common.Map.{Order, Map, find}
use logsvc.Common.Text.{Bytes}
use logsvc.Errors.{FilePath, Result}

-- boost::asio::ip::address: its family, and its bytes in network order.
pub data Address : Type 0 where
  v4 : Bytes → Address
  v6 : Bytes → Address

-- boost::posix_time::ptime, by the accessors of its date and of its time of day.
pub record PTime : Type 0 where
  pub year : ℕ
  pub month : ℕ
  pub day : ℕ
  pub hours : ℕ
  pub minutes : ℕ
  pub seconds : ℕ
  pub fractional_seconds : ℕ

abbrev pub value_or : {V : Type 0} → V → Option V → V
value_or d none = d
value_or d (some v) = v

pub record Platform : Type 1 where
  pub Disk : Type 0
  -- boost::filesystem::exists throws where the file system does not tell.
  pub exists : Disk → FilePath → Result Bool
  -- an ofstream is opened on the path and destroyed
  pub create : Disk → FilePath → Disk
  -- an ofstream is opened for appending, written to and destroyed
  pub append : Disk → FilePath → Bytes → Disk
  -- operator< of boost::filesystem::path
  pub path_order : Order FilePath
  -- egen::lookup(key, map, default)
  pub lookup : (K V : Type 0) → Order K → K → Map K V → V → V
  pub lookup_lem :
      (K V : Type 0) (o : Order K) (k : K) (m : Map K V) (d : V)
      → lookup K V o k m d ≡ value_or d (find o k m)
  -- the n-th reading of microsec_clock::local_time()
  pub local_time : ℕ → PTime
  -- time_duration::resolution(): the digits of a fractional second, less one
  pub resolution : ℕ
  pub to_string : Address → Bytes
  -- address::from_string, which throws on what is no address
  pub from_string : Bytes → Result Address
