-- ===== src/Clients/OutStream/Lines.antt =====
-- What is put into a stream between two syncs is one line.
use logsvc.Common.{ℕ, ◌≡◌, refl, ◌∙◌, ap, sym, [], ◌∷◌, ◌++◌, List, take, append-nil, append_assoc}
use logsvc.Common.Text.{Bytes}
use logsvc.Clients.{SessionConnection}
use logsvc.Clients.ConnectedLogFile.{OnConnection, logln}
use logsvc.Clients.OutStream.{LogBuf, overflow, xsputn, sync, on_log}
use logsvc.Errors.{Result, ok, throw, fault}

-- The calls by which a stream puts characters into its buffer.
pub data Put : Type 0 where
  one : ℕ → Put
  many : Bytes → ℕ → Put

abbrev pub characters : List Put → Bytes
characters [] = []
characters (one ch ∷ ps) = ch ∷ characters ps
characters (many s count ∷ ps) = take count s ++ characters ps

module _ {S : Type 0} (c : SessionConnection S) where
  unfoldable pub puts : List Put → LogBuf S → LogBuf S
  puts [] b = b
  puts (one ch ∷ ps) b = puts ps (overflow ch b)
  puts (many s count ∷ ps) b = puts ps (xsputn s count b)

  puts-characters :
      (ps : List Put) (b : LogBuf S) → puts ps b ≡ record b { buffer = b.buffer ++ characters ps }
  unfolding puts overflow xsputn
  puts-characters [] b = ap (λ (t : Bytes). record b { buffer = t }) (sym (append-nil b.buffer))
  puts-characters (one ch ∷ ps) b =
      puts-characters ps (overflow ch b)
      ∙ ap (λ (t : Bytes). record b { buffer = t })
          (append_assoc b.buffer (ch ∷ []) (characters ps))
  puts-characters (many s count ∷ ps) b =
      puts-characters ps (xsputn s count b)
      ∙ ap (λ (t : Bytes). record b { buffer = t })
          (append_assoc b.buffer (take count s) (characters ps))

  -- What the buffer holds after a sync.
  abbrev pub kept : Result (Unit {0}) → Bytes → Bytes
  kept (ok u) text = []
  kept _ text = text

  sync-by :
      (text : Bytes) (log log' : OnConnection S) (r : Result (Unit {0}))
      → logln c text log ≡ (r, log')
      → sync c (record { log = log; buffer = text })
        ≡ (r, record { log = log'; buffer = kept r text })
  unfolding sync on_log
  sync-by text log log' (ok u) e = rw e refl
  sync-by text log log' (throw x) e = rw e refl
  sync-by text log log' fault e = rw e refl

  -- After any characters have been put into an empty buffer, by either call and in any pieces, sync
  -- logs exactly those characters as one line: if that returns, the buffer is empty again, and if
  -- it throws, the buffer keeps them.
  pub sync_lem :
      (ps : List Put) (log log' : OnConnection S) (r : Result (Unit {0}))
      → logln c (characters ps) log ≡ (r, log')
      → sync c (puts ps (record { log = log; buffer = [] }))
        ≡ (r, record { log = log'; buffer = kept r (characters ps) })
  sync_lem ps log log' r e =
      ap (sync c) (puts-characters ps (record { log = log; buffer = [] }))
      ∙ sync-by (characters ps) log log' r e
