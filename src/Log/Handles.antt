-- ===== src/Log/Handles.antt =====
-- log/FileHandle.cpp and log/ClientHandle.cpp: the numbers by which client and daemon name a file
-- and a client, as values. Their part as protocol objects is in `Objects`.
pub mod Operators
use logsvc.Common.{ℕ, ◌≡◌, ◌==◌, Bool, true, ltb, ◌↔◌, arith}
use logsvc.Common.Map.{Order, is_same, same}

pub record FileHandle : Type 0 where
  pub payload_length : ℕ
  pub fh : ℕ

-- FileHandle(unsigned int handle)
abbrev pub file_handle_of : ℕ → FileHandle
file_handle_of handle = record { payload_length = 4; fh = handle }

-- FileHandle()
abbrev pub no_file_handle : FileHandle
no_file_handle = file_handle_of 0

pub record ClientHandle : Type 0 where
  pub payload_length : ℕ
  pub ch : ℕ

-- ClientHandle(unsigned int ch)
abbrev pub client_handle_of : ℕ → ClientHandle
client_handle_of ch = record { payload_length = 4; ch = ch }

-- ClientHandle()
abbrev pub no_client_handle : ClientHandle
no_client_handle = client_handle_of 0

-- operator==
unfoldable pub file_handle_eq : FileHandle → FileHandle → Bool
file_handle_eq a b = a.fh == b.fh

-- operator<
unfoldable pub file_handle_lt : FileHandle → FileHandle → Bool
file_handle_lt a b = ltb a.fh b.fh

-- operator== of ClientHandle
unfoldable pub client_handle_eq : ClientHandle → ClientHandle → Bool
client_handle_eq a b = a.ch == b.ch

-- operator< of ClientHandle
unfoldable pub client_handle_lt : ClientHandle → ClientHandle → Bool
client_handle_lt a b = ltb a.ch b.ch

pub handle_same_refl : (a : FileHandle) → is_same file_handle_lt a a ≡ true
unfolding file_handle_lt
handle_same_refl a = ground arith

pub handle_same_trans :
    (a b c : FileHandle)
    → is_same file_handle_lt a b ≡ true
    → is_same file_handle_lt b c ≡ true
    → is_same file_handle_lt a c ≡ true
unfolding file_handle_lt
handle_same_trans a b c h k = ground arith

-- The order of the keys in std::map<FileHandle, …>.
abbrev pub handle_order : Order FileHandle
handle_order = record {
  lt = file_handle_lt;
  is_same_refl = λ a. handle_same_refl a;
  is_same_trans = λ a b c. handle_same_trans a b c;
}

-- Two keys are the same in such a map exactly when `operator==` says so.
pub same_handles : (a b : FileHandle) → same handle_order a b ≡ file_handle_eq a b
unfolding same file_handle_lt file_handle_eq
same_handles a b = ground arith

pub handles_iff : (a b : FileHandle) → (same handle_order a b ≡ true) ↔ (a.fh ≡ b.fh)
unfolding same file_handle_lt
handles_iff a b = ground arith
