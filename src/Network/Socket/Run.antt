-- ===== src/Network/Socket/Run.antt =====
-- The socket through any calls and completions.
use logsvc.Common.{
  ℕ, ◌≡◌, refl, ◌∙◌, ap, sym, subst, Bool, true, false, inl, inr, Option, none, some, List, [], ◌∷◌,
  ◌++◌, if◌then◌else◌, append-nil,
}
use logsvc.Common.Map.{Map}
use logsvc.Common.Text.{Bytes}
use logsvc.Errors.{Result, ok, fault}
use logsvc.Exec.{Exec, resume, modify, ◌>>◌}
use logsvc.Network.Socket.{
  DefaultSocket, Notice, Call, construct, calls, handle_read, handle_write, read_result,
  write_result, write_unless_empty, pop_write_queue, pop, notify_state_listeners_of_connection_lost,
  tell_all, keeping, connection_lost, notify, write_succeeded, error_occurred, bytes_received,
}
use logsvc.Network.Socket.Fifo.{
  asked, waiting, IsServing, Queued, quiet-Queued, calls-Queued, then-Queued, write_front-Queued,
}

-- Telling a listener changes nothing of the queue.
told-Queued :
    (s : DefaultSocket) (n : Notice)
    → s.were_dying ≡ false
    → IsServing s
    → Queued s [] (ok tt, notify n s)
told-Queued s n alive serving = quiet-Queued s (notify n s) alive serving refl refl refl refl

lost-Queued :
    (s : DefaultSocket)
    → s.were_dying ≡ false
    → IsServing s
    → Queued s [] (notify_state_listeners_of_connection_lost keeping s)
unfolding notify_state_listeners_of_connection_lost tell_all
lost-Queued s alive serving = by_listeners s.state_listeners s alive serving
  where
    by_listeners :
        (listeners : Map ℕ (Unit {0})) (s : DefaultSocket)
        → s.were_dying ≡ false
        → IsServing s
        → Queued s [] (tell_all keeping listeners s)
    by_listeners [] s alive serving = quiet-Queued s s alive serving refl refl refl refl
    by_listeners ((l, u) ∷ rest) s alive serving =
        then-Queued s [] [] _ (tell_all keeping rest)
          (told-Queued s (connection_lost l) alive serving) (λ t a g. by_listeners rest t a g)

-- A listener is told something, and reacts, and then comes `last`.
reacted-Queued :
    (s : DefaultSocket) (n : Notice) (reaction : List Call)
    (last : DefaultSocket → Result (Unit {0}) × DefaultSocket)
    → s.were_dying ≡ false
    → IsServing s
    → ((t : DefaultSocket) → t.were_dying ≡ false → IsServing t → Queued t [] (last t))
    → Queued s
        (asked reaction)
        (resume (λ _. last) (resume (λ _. calls reaction) (ok tt, notify n s)))
reacted-Queued s n reaction last alive serving h =
    let told =
      then-Queued s [] (asked reaction) _ (calls reaction) (told-Queued s n alive serving)
        (λ t a g. calls-Queued t reaction a g) in
    subst
      (λ (q : List (Bytes × ℕ)).
        Queued s q (resume (λ _. last) (resume (λ _. calls reaction) (ok tt, notify n s))))
      (append-nil (asked reaction)) (then-Queued s (asked reaction) [] _ last told h)

write_unless_empty-Queued :
    (s : DefaultSocket) (q : List (Bytes × ℕ))
    → s.write_queue ≡ q
    → s.were_dying ≡ false
    → IsServing s
    → Queued s [] (write_unless_empty q s)
unfolding write_unless_empty
write_unless_empty-Queued s [] e alive serving = quiet-Queued s s alive serving refl refl refl refl
write_unless_empty-Queued s (front ∷ rest) e alive serving = write_front-Queued s front rest alive e

write_result-Queued :
    (s : DefaultSocket) (error : Option Bytes) (listener : ℕ) (reaction : List Call)
    → s.were_dying ≡ false
    → IsServing s
    → Queued s (asked reaction) (write_result keeping error listener reaction s)
unfolding write_result
write_result-Queued s none listener reaction alive serving =
    reacted-Queued s (write_succeeded listener) reaction (λ t. write_unless_empty t.write_queue t)
      alive serving (λ t a g. write_unless_empty-Queued t t.write_queue refl a g)
write_result-Queued s (some message) listener reaction alive serving =
    reacted-Queued s (error_occurred listener message) reaction
      (notify_state_listeners_of_connection_lost keeping) alive serving (λ t a g. lost-Queued t a g)

-- The socket after the front has been written.
abbrev popped : DefaultSocket → List (Bytes × ℕ) → DefaultSocket
popped s rest = record s { write_queue = rest; write_queue_active = false }

abbrev activate_none : Exec DefaultSocket (Unit {0})
activate_none = modify λ t. record t { write_queue_active = false }

handle_write-by :
    (s : DefaultSocket) (error : Option Bytes) (listener : ℕ) (reaction : List Call)
    (front : Bytes × ℕ) (rest : List (Bytes × ℕ))
    → s.were_dying ≡ false
    → s.write_queue ≡ front ∷ rest
    → handle_write keeping error listener reaction s
      ≡ write_result keeping error listener reaction (popped s rest)
unfolding handle_write pop_write_queue
handle_write-by s error listener reaction front rest alive e =
    let after = λ (q : List (Bytes × ℕ)).
      resume (λ _. activate_none >> write_result keeping error listener reaction) (pop q s) in
    ap
      (λ (b : Bool).
        if◌then◌else◌ {A = Result (Unit {0}) × DefaultSocket} b (ok tt, s) (after s.write_queue))
      alive
    ∙ ap after e

-- The completion of the write of the front.
handle_write-Queued :
    (s : DefaultSocket) (error : Option Bytes) (listener : ℕ) (reaction : List Call)
    → s.were_dying ≡ false
    → IsServing s
    → s.write_queue_active ≡ true
    → Queued s (asked reaction) (handle_write keeping error listener reaction s)
handle_write-Queued s error listener reaction alive (inl free) active = absurd (cc)
handle_write-Queued s error listener reaction alive (inr (on, front, rest, e)) active =
    let r = write_result-Queued (popped s rest) error listener reaction alive (inl refl) in
    let same_waiting : waiting s ≡ rest = rw (active, e) refl in
    subst (Queued s (asked reaction))
      (sym (handle_write-by s error listener reaction front rest alive e))
      (record {
        returned = r.returned;
        alive = r.alive;
        serving = r.serving;
        fifo =
            r.fifo
            ∙ ap (λ (q : List (Bytes × ℕ)). (s.handed ++ q) ++ asked reaction) (sym same_waiting);
      })

handle_read-Queued :
    (s : DefaultSocket) (error : Option Bytes) (listener : ℕ) (bytes : Bytes) (reaction : List Call)
    → s.were_dying ≡ false
    → IsServing s
    → Queued s (asked reaction) (handle_read keeping error listener bytes reaction s)
unfolding handle_read read_result
handle_read-Queued s error listener bytes reaction alive serving =
    subst (Queued s (asked reaction))
      (sym (
        ap
          (λ (b : Bool).
            if◌then◌else◌ {A = Result (Unit {0}) × DefaultSocket} b (ok tt, s)
              (read_result keeping error listener bytes reaction s))
          alive))
      (by_error error)
  where
    by_error :
        (error : Option Bytes)
        → Queued s (asked reaction) (read_result keeping error listener bytes reaction s)
    by_error none =
        then-Queued s [] (asked reaction) _ (calls reaction)
          (told-Queued s (bytes_received listener bytes) alive serving)
          (λ t a g. calls-Queued t reaction a g)
    by_error (some message) =
        reacted-Queued s (error_occurred listener message) reaction
          (notify_state_listeners_of_connection_lost keeping) alive serving
          (λ t a g. lost-Queued t a g)

-- The states of a socket that nobody destroys, with all that has been asked to be written: calls
-- by its owners, and completions of reads, and of a write that is in flight.
pub data Run : List (Bytes × ℕ) → DefaultSocket → Type 0 where
  made : Run [] construct
  called :
      (a : List (Bytes × ℕ)) (s : DefaultSocket) (cs : List Call)
      → Run a s
      → Run (a ++ asked cs) (calls cs s).1
  has_read :
      (a : List (Bytes × ℕ)) (s : DefaultSocket) (error : Option Bytes) (listener : ℕ)
      (bytes : Bytes) (reaction : List Call)
      → Run a s
      → Run (a ++ asked reaction) (handle_read keeping error listener bytes reaction s).1
  has_written :
      (a : List (Bytes × ℕ)) (s : DefaultSocket) (error : Option Bytes) (listener : ℕ)
      (reaction : List Call)
      → Run a s
      → s.write_queue_active ≡ true
      → Run (a ++ asked reaction) (handle_write keeping error listener reaction s).1

record Served (a : List (Bytes × ℕ)) (s : DefaultSocket) : Type 0 where
  alive : s.were_dying ≡ false
  serving : IsServing s
  all : s.handed ++ waiting s ≡ a

Queued-Served :
    (a more : List (Bytes × ℕ)) (s : DefaultSocket) (r : Result (Unit {0}) × DefaultSocket)
    → Served a s
    → Queued s more r
    → Served (a ++ more) r.1
Queued-Served a more s r h q = record {
  alive = q.alive;
  serving = q.serving;
  all = q.fifo ∙ ap (λ (t : List (Bytes × ℕ)). t ++ more) h.all;
}

Run-Served : (a : List (Bytes × ℕ)) (s : DefaultSocket) → Run a s → Served a s
Run-Served a s made = record { alive = refl; serving = inl refl; all = refl }
Run-Served a s (called b t cs r) =
    let h = Run-Served b t r in
    Queued-Served b (asked cs) t _ h (calls-Queued t cs h.alive h.serving)
Run-Served a s (has_read b t error listener bytes reaction r) =
    let h = Run-Served b t r in
    Queued-Served b (asked reaction) t _ h
      (handle_read-Queued t error listener bytes reaction h.alive h.serving)
Run-Served a s (has_written b t error listener reaction r active) =
    let h = Run-Served b t r in
    Queued-Served b (asked reaction) t _ h
      (handle_write-Queued t error listener reaction h.alive h.serving active)

-- Whatever a socket that nobody destroys is asked for, in any order, with reads and writes that succeed or fail, and with
-- listeners that ask for more while they are told: what boost::asio has been given to write,
-- followed by what waits in the queue, is all that has been asked to be written, in the same order.
pub fifo_lem : (a : List (Bytes × ℕ)) (s : DefaultSocket) → Run a s → s.handed ++ waiting s ≡ a
fifo_lem a s r = (Run-Served a s r).all

-- In each of these states, with state listeners of which none destroys the socket, the completion of a
-- write in flight returns: the queue that it pops is not empty, and a write is started only on a queue
-- that is not empty.
pub handle_write_lem :
    (a : List (Bytes × ℕ)) (s : DefaultSocket) (error : Option Bytes) (listener : ℕ)
    (reaction : List Call)
    → Run a s
    → s.write_queue_active ≡ true
    → (handle_write keeping error listener reaction s).0 ≡ ok tt
handle_write_lem a s error listener reaction r active =
    let h = Run-Served a s r in
    (handle_write-Queued s error listener reaction h.alive h.serving active).returned

-- On a socket with one state listener, which destroys the socket when it is told of the loss, the loop
-- over the listeners is undefined.
pub lost_faults :
    (s : DefaultSocket) (destroys : ℕ → Bool) (l : ℕ)
    → s.state_listeners ≡ (l, tt) ∷ []
    → destroys l ≡ true
    → (notify_state_listeners_of_connection_lost destroys s).0 ≡ fault
unfolding notify_state_listeners_of_connection_lost tell_all
lost_faults s destroys l e h = rw e (rw h refl)
