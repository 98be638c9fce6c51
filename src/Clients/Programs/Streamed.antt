-- ===== src/Clients/Programs/Streamed.antt =====
-- What logviastream logs, and a log of Python that has been closed.
use logsvc.Common.{◌≡◌, refl, ◌∙◌, ap, Option, none, some, List, [], ◌∷◌, ◌++◌, length, take}
use logsvc.Common.Text.{Bytes, codes}
use logsvc.Clients.{SessionConnection}
use logsvc.Clients.ConnectedLogFile.{OnConnection, logln}
use logsvc.Clients.Host.{Factories}
use logsvc.Clients.OutStream.{LogBuf, xsputn, sync}
use logsvc.Clients.OutStream.Lines.{Put, many, characters, puts, kept, sync_lem}
use logsvc.Clients.Programs.{PyLog, put, put_each, flush, stream_words, py_logln, py_close}
use logsvc.Errors.{Result, ok, throw, fault}

-- The words with a space between each two.
abbrev pub spaced : List Bytes → Bytes
spaced [] = []
spaced (word ∷ words) = codes " " ++ (word ++ spaced words)

-- An exception of a stream's buffer is not seen by the program.
abbrev pub unseen : Result (Unit {0}) → Result (Unit {0})
unseen (ok u) = ok u
unseen (throw e) = ok tt
unseen fault = fault

module _ {S : Type 0} (c : SessionConnection S) (connection_factory : Factories S) where
  take_all : (word : Bytes) → take (length word) word ≡ word
  take_all [] = refl
  take_all (b ∷ bs) = ap (◌∷◌ b) (take_all bs)

  -- The calls on the buffer.
  abbrev calls : List Bytes → List Put
  calls [] = []
  calls (word ∷ words) = many (codes " ") 1 ∷ many word (length word) ∷ calls words

  calls-characters : (words : List Bytes) → characters (calls words) ≡ spaced words
  calls-characters [] = refl
  calls-characters (word ∷ words) =
      ap (λ t. 32 ∷ (t ++ characters (calls words))) (take_all word)
      ∙ ap (λ t. 32 ∷ (word ++ t)) (calls-characters words)

  put_each-puts :
      (words : List Bytes) (b : LogBuf S)
      → put_each c connection_factory words b ≡ puts c (calls words) b
  unfolding put put_each puts
  put_each-puts [] b = refl
  put_each-puts (word ∷ words) b = put_each-puts words _

  -- The arguments of logviastream become one line of the log, with a space between each two; whether
  -- the line was refused is not seen.
  pub stream_words_lem :
      (word : Bytes) (words : List Bytes) (st after : OnConnection S) (r : Result (Unit {0}))
      → logln c (word ++ spaced words) st ≡ (r, after)
      → stream_words c connection_factory word words st ≡ (unseen r, after)
  unfolding stream_words put flush xsputn puts
  stream_words_lem word words st after r e = by_result r _ synced
    where
      start : LogBuf S
      start = record { log = st; buffer = [] }

      text : characters (many word (length word) ∷ calls words) ≡ word ++ spaced words
      text =
          ap (λ t. t ++ characters (calls words)) (take_all word)
          ∙ ap (λ t. word ++ t) (calls-characters words)

      synced : sync c (put_each c connection_factory words (xsputn word (length word) start)) ≡ (
        r,
        record {
          log = after;
          buffer = kept c r (characters (many word (length word) ∷ calls words));
        },
      )
      synced =
          ap (sync c) (put_each-puts words (xsputn word (length word) start))
          ∙ sync_lem c (many word (length word) ∷ calls words) st after r
              (ap (λ t. logln c t st) text ∙ e)

      by_result :
          (r : Result (Unit {0})) (buffer : Bytes)
          → sync c (put_each c connection_factory words (xsputn word (length word) start))
            ≡ (r, record { log = after; buffer = buffer })
          → stream_words c connection_factory word words st ≡ (unseen r, after)
      by_result (ok u) buffer q = rw q refl
      by_result (throw x) buffer q = rw q refl
      by_result fault buffer q = rw q refl

  -- A log of Python that has been closed: logln follows a null pointer.
  pub py_logln-py_close :
      (line : Bytes) (p : PyLog S) → (py_logln c line (py_close c p).1).0 ≡ fault
  unfolding py_logln py_close
  py_logln-py_close line p = by_log p.log refl
    where
      by_log :
          (o : Option (OnConnection S)) → p.log ≡ o → (py_logln c line (py_close c p).1).0 ≡ fault
      by_log none e = rw e refl
      by_log (some st) e = rw e refl
