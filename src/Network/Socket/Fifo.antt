-- ===== src/Network/Socket/Fifo.antt =====
-- The write queue of DefaultSocket is a FIFO with one write in flight: what boost::asio was given,
-- followed by what waits, is what was asked for, in that order.
use logsvc.Common.{
  ℕ, ◌≡◌, refl, ◌∙◌, ap, sym, subst, Bool, true, false, ◌⊎◌, inl, inr, List, [], ◌∷◌, ◌++◌,
  if◌then◌else◌, Bool-cases, append_assoc, append-nil,
}
use logsvc.Common.Text.{Bytes}
use logsvc.Errors.{Result, ok, throw, fault}
use logsvc.Exec.{resume}
use logsvc.Network.Socket.{
  DefaultSocket, Call, reads, writes, keeps_alive, call, calls, async_read, async_write, keep_alive,
  add_to_write_queue, write_front, start, socket_closed, notify, error_occurred,
}

-- What a call asks to be written.
abbrev pub asked_by : Call → List (Bytes × ℕ)
asked_by (reads listener n) = []
asked_by (writes listener bytes) = (bytes, listener) ∷ []
asked_by keeps_alive = []

abbrev pub asked : List Call → List (Bytes × ℕ)
asked [] = []
asked (c ∷ cs) = asked_by c ++ asked cs

abbrev pub behind : Bool → List (Bytes × ℕ) → List (Bytes × ℕ)
behind true [] = []
behind true (front ∷ rest) = rest
behind false queue = queue

-- The writes that boost::asio has not been given. The one in flight is still in the queue.
abbrev pub waiting : DefaultSocket → List (Bytes × ℕ)
waiting s = behind s.write_queue_active s.write_queue

-- A write is in flight only if the queue has it.
abbrev pub IsServing : DefaultSocket → Type 0
IsServing s =
    (s.write_queue_active ≡ false)
    ⊎ ((s.write_queue_active ≡ true)
        × (front : Bytes × ℕ) × (rest : List (Bytes × ℕ)) × (s.write_queue ≡ front ∷ rest))

-- A handler returned, keeps the socket serving, and has asked for `more`.
pub record Queued (s : DefaultSocket) (more : List (Bytes × ℕ))
    (r : Result (Unit {0}) × DefaultSocket) : Type 0 where
  pub returned : r.0 ≡ ok tt
  pub alive : r.1.were_dying ≡ false
  pub serving : IsServing r.1
  pub fifo : r.1.handed ++ waiting r.1 ≡ (s.handed ++ waiting s) ++ more

-- A step that leaves the queue alone.
pub quiet-Queued :
    (s t : DefaultSocket)
    → s.were_dying ≡ false
    → IsServing s
    → t.were_dying ≡ s.were_dying
    → t.write_queue_active ≡ s.write_queue_active
    → t.write_queue ≡ s.write_queue
    → t.handed ≡ s.handed
    → Queued s [] (ok tt, t)
quiet-Queued s t alive serving d a q h = record {
  returned = refl;
  alive = d ∙ alive;
  serving = rw (a, q) serving;
  fifo = rw (a, q, h) (sym (append-nil (s.handed ++ waiting s)));
}

pub Queued-of :
    (s t : DefaultSocket) (more : List (Bytes × ℕ)) (r : Result (Unit {0}) × DefaultSocket)
    → r ≡ (ok tt, t)
    → Queued s more (ok tt, t)
    → Queued s more r
Queued-of s t more r e h = subst (Queued s more) (sym e) h

abbrev begun : DefaultSocket → DefaultSocket
begun s = record s { write_queue_active = true }

write_front-by :
    (s : DefaultSocket) (b : Bool)
    → s.write_queue_active ≡ b
    → write_front s ≡ (if b then (ok tt, s) else start s.write_queue (begun s))
unfolding write_front
write_front-by s b e =
    ap
      (λ (c : Bool).
        if◌then◌else◌ {A = Result (Unit {0}) × DefaultSocket} c (ok tt, s)
          (start s.write_queue (begun s)))
      e

start-by :
    (q : List (Bytes × ℕ)) (front : Bytes × ℕ) (rest : List (Bytes × ℕ)) (s : DefaultSocket)
    → q ≡ front ∷ rest
    → start q s ≡ (ok tt, record s { handed = s.handed ++ front ∷ [] })
unfolding start
start-by q front rest s e = ap (λ (p : List (Bytes × ℕ)). start p s) e

-- Starting the front of a queue that is not empty.
pub write_front-Queued :
    (s : DefaultSocket) (front : Bytes × ℕ) (rest : List (Bytes × ℕ))
    → s.were_dying ≡ false
    → s.write_queue ≡ front ∷ rest
    → Queued s [] (write_front s)
write_front-Queued s front rest alive e = elim (Bool-cases s.write_queue_active) [
  | inl active ↦
      Queued-of s s [] _ (write_front-by s true active)
        (quiet-Queued s s alive (inr (active, front, rest, e)) refl refl refl refl)
  | inr free ↦
      Queued-of s (record (begun s) { handed = s.handed ++ front ∷ [] }) [] _
        (write_front-by s false free ∙ start-by s.write_queue front rest (begun s) e)
        record {
          returned = refl;
          alive = alive;
          serving = inr (refl, front, rest, e);
          fifo =
              ap (λ (q : List (Bytes × ℕ)). (s.handed ++ front ∷ []) ++ behind true q) e
              ∙ append_assoc s.handed (front ∷ []) rest
              ∙ ap (λ (q : List (Bytes × ℕ)). s.handed ++ q) (sym e)
              ∙ ap (λ (b : Bool). s.handed ++ behind b s.write_queue) (sym free)
              ∙ sym (append-nil (s.handed ++ waiting s));
        }
]

-- What comes after a step.
pub then-Queued :
    (s : DefaultSocket) (a b : List (Bytes × ℕ)) (r : Result (Unit {0}) × DefaultSocket)
    (k : DefaultSocket → Result (Unit {0}) × DefaultSocket)
    → Queued s a r
    → ((t : DefaultSocket) → t.were_dying ≡ false → IsServing t → Queued t b (k t))
    → Queued s (a ++ b) (resume (λ _. k) r)
then-Queued s a b (ok u, t) k h g =
    let n = g t h.alive h.serving in
    record {
      returned = n.returned;
      alive = n.alive;
      serving = n.serving;
      fifo =
          n.fifo
          ∙ ap (λ (q : List (Bytes × ℕ)). q ++ b) h.fifo
          ∙ append_assoc (s.handed ++ waiting s) a b;
    }
then-Queued s a b (throw x, t) k h g = let e = h.returned in cc
then-Queued s a b (fault, t) k h g = let e = h.returned in cc

behind-append :
    (s : DefaultSocket) (x : Bytes × ℕ)
    → IsServing s
    → behind s.write_queue_active (s.write_queue ++ x ∷ []) ≡ waiting s ++ x ∷ []
behind-append s x (inl free) = rw free refl
behind-append s x (inr (active, front, rest, e)) = rw (active, e) refl

-- A queue that something has been added to.
queue_end :
    (q : List (Bytes × ℕ)) (x : Bytes × ℕ)
    → (front : Bytes × ℕ) × (rest : List (Bytes × ℕ)) × (q ++ x ∷ [] ≡ front ∷ rest)
queue_end [] x = (x, [], refl)
queue_end (y ∷ q) x = (y, q ++ x ∷ [], refl)

abbrev no_more_idle_work : DefaultSocket → Result (Unit {0}) × DefaultSocket
no_more_idle_work t = (ok tt, record t { idle_work = false })

async_write-Queued :
    (s : DefaultSocket) (listener : ℕ) (bytes : Bytes)
    → s.were_dying ≡ false
    → IsServing s
    → Queued s ((bytes, listener) ∷ []) (async_write listener bytes s)
unfolding async_write add_to_write_queue
async_write-Queued s listener bytes alive serving =
    let x : Bytes × ℕ = (bytes, listener) in
    let (front, rest, e) = queue_end s.write_queue x in
    let s1 = add_to_write_queue bytes listener s in
    let started =
      then-Queued s1 [] [] (write_front s1) no_more_idle_work
        (write_front-Queued s1 front rest alive e)
        (λ t alive_t serving_t.
          quiet-Queued t (record t { idle_work = false }) alive_t serving_t refl refl refl refl) in
    let by_flag =
      ap
        (λ (b : Bool).
          if◌then◌else◌ {A = Result (Unit {0}) × DefaultSocket} b
            (ok tt, notify (error_occurred listener socket_closed) s)
            (resume (λ _. no_more_idle_work) (write_front s1)))
        alive in
    subst (Queued s (x ∷ [])) (sym by_flag) record {
      returned = started.returned;
      alive = started.alive;
      serving = started.serving;
      fifo =
          started.fifo
          ∙ append-nil (s1.handed ++ waiting s1)
          ∙ ap (λ (q : List (Bytes × ℕ)). s.handed ++ q) (behind-append s x serving)
          ∙ sym (append_assoc s.handed (waiting s) (x ∷ []));
    }

call-Queued :
    (s : DefaultSocket) (c : Call)
    → s.were_dying ≡ false
    → IsServing s
    → Queued s (asked_by c) (call c s)
unfolding call async_read keep_alive
call-Queued s (writes listener bytes) alive serving =
    async_write-Queued s listener bytes alive serving
call-Queued s (reads listener n) alive serving =
    subst (λ (t : DefaultSocket). Queued s [] (ok tt, t))
      (sym (
        ap
          (λ (b : Bool). if b then notify (error_occurred listener socket_closed) s else record s {
            reads = s.reads ++ record { read_bytes = n; listener = listener } ∷ [];
            idle_work = false;
          })
          alive))
      (quiet-Queued s _ alive serving refl refl refl refl)
call-Queued s keeps_alive alive serving =
    subst (λ (t : DefaultSocket). Queued s [] (ok tt, t))
      (sym (ap (λ (b : Bool). if b then s else record s { idle_work = true }) alive))
      (quiet-Queued s (record s { idle_work = true }) alive serving refl refl refl refl)

pub calls-Queued :
    (s : DefaultSocket) (cs : List Call)
    → s.were_dying ≡ false
    → IsServing s
    → Queued s (asked cs) (calls cs s)
unfolding calls
calls-Queued s [] alive serving = quiet-Queued s s alive serving refl refl refl refl
calls-Queued s (c ∷ cs) alive serving =
    then-Queued s (asked_by c) (asked cs) (call c s) (calls cs) (call-Queued s c alive serving)
      (λ t alive_t serving_t. calls-Queued t cs alive_t serving_t)
