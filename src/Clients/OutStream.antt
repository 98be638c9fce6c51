-- ===== src/Clients/OutStream.antt =====
-- logsvccpp/OutStream.cpp: a stream buffer whose contents become one line of the log at each sync.
pub mod Lines
use logsvc.Common.{ℕ, ◌≡◌, refl, ◌∙◌, ap, sym, [], ◌∷◌, ◌++◌, List, take, append-nil, append_assoc}
use logsvc.Common.Text.{Bytes}
use logsvc.Clients.{SessionConnection}
use logsvc.Clients.ConnectedLogFile.{OnConnection, logln}
use logsvc.Errors.{Result, ok, throw, fault}
use logsvc.Exec.{Exec, modify, resume, ◌>>=◌, ◌>>◌}

-- A LogBuf with its Log.
pub record LogBuf (S : Type 0) : Type 0 where
  pub log : OnConnection S
  pub buffer : Bytes

-- An ostream on a buffer that it owns.
abbrev pub OutStream : Type 0 → Type 0
OutStream S = LogBuf S

-- OutStream(log): a new LogBuf(log)
abbrev pub construct : {S : Type 0} → OnConnection S → OutStream S
construct log = record { log = log; buffer = [] }

module _ {S : Type 0} where
  -- overflow(ch), with ch as the char that push_back makes of it
  unfoldable pub overflow : ℕ → LogBuf S → LogBuf S
  overflow ch b = record b { buffer = b.buffer ++ ch ∷ [] }

  unfoldable pub xsputn : Bytes → ℕ → LogBuf S → LogBuf S
  xsputn s count b = record b { buffer = b.buffer ++ take count s }

  on_log : Exec (OnConnection S) (Unit {0}) → Exec (LogBuf S) (Unit {0})
  on_log m b = let (r, l) = m b.log in (r, record b { log = l })

  unfoldable pub sync : SessionConnection S → Exec (LogBuf S) (Unit {0})
  unfolding on_log
  sync c b = (do on_log (logln c b.buffer); modify λ t. record t { buffer = [] }) b
