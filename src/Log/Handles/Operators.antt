-- ===== src/Log/Handles/Operators.antt =====
-- The other comparisons of log/FileHandle.h and log/ClientHandle.h, which stand on `<` and `==`.
use logsvc.Common.{◌≡◌, ◌↔◌, ◌≢◌, ◌≤◌, ◌<◌, Bool, true, not, ◌||◌, arith}
use logsvc.Log.Handles.{
  FileHandle, ClientHandle, file_handle_eq, file_handle_lt, client_handle_eq, client_handle_lt,
}

unfoldable pub file_handle_ne : FileHandle → FileHandle → Bool
file_handle_ne lhs rhs = not (file_handle_eq lhs rhs)

unfoldable pub file_handle_le : FileHandle → FileHandle → Bool
file_handle_le lhs rhs = file_handle_lt lhs rhs || file_handle_eq lhs rhs

unfoldable pub file_handle_gt : FileHandle → FileHandle → Bool
unfolding file_handle_le
file_handle_gt lhs rhs = not (file_handle_le lhs rhs)

unfoldable pub file_handle_ge : FileHandle → FileHandle → Bool
file_handle_ge lhs rhs = not (file_handle_lt lhs rhs)

unfoldable pub client_handle_ne : ClientHandle → ClientHandle → Bool
client_handle_ne lhs rhs = not (client_handle_eq lhs rhs)

unfoldable pub client_handle_le : ClientHandle → ClientHandle → Bool
client_handle_le lhs rhs = client_handle_lt lhs rhs || client_handle_eq lhs rhs

unfoldable pub client_handle_gt : ClientHandle → ClientHandle → Bool
unfolding client_handle_le
client_handle_gt lhs rhs = not (client_handle_le lhs rhs)

unfoldable pub client_handle_ge : ClientHandle → ClientHandle → Bool
client_handle_ge lhs rhs = not (client_handle_lt lhs rhs)

-- They are the comparisons of the numbers.
file_handles_iff :
    (a b : FileHandle)
    → ((file_handle_ne a b ≡ true) ↔ (a.fh ≢ b.fh))
      × ((file_handle_le a b ≡ true) ↔ (a.fh ≤ b.fh))
      × ((file_handle_gt a b ≡ true) ↔ (b.fh < a.fh))
      × ((file_handle_ge a b ≡ true) ↔ (b.fh ≤ a.fh))
unfolding file_handle_ne file_handle_le file_handle_gt file_handle_ge file_handle_eq file_handle_lt
file_handles_iff a b = (ground arith, ground arith, ground arith, ground arith)

client_handles_iff :
    (a b : ClientHandle)
    → ((client_handle_ne a b ≡ true) ↔ (a.ch ≢ b.ch))
      × ((client_handle_le a b ≡ true) ↔ (a.ch ≤ b.ch))
      × ((client_handle_gt a b ≡ true) ↔ (b.ch < a.ch))
      × ((client_handle_ge a b ≡ true) ↔ (b.ch ≤ a.ch))
unfolding client_handle_ne client_handle_le client_handle_gt client_handle_ge client_handle_eq
    client_handle_lt
client_handles_iff a b = (ground arith, ground arith, ground arith, ground arith)
