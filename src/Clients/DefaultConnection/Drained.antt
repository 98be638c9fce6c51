-- ===== src/Clients/DefaultConnection/Drained.antt =====
-- Nobody waits for ever: where every call on the socket fails, each send gets its turn and its future
-- an error, whatever the order in which the threads get the mutex.
use logsvc.Common.{
  ℕ, ◌+◌, ◌*◌, ◌≡◌, refl, ◌∙◌, ap, sym, subst, false, ◌⊎◌, inl, inr, Option, none, some, List, [],
  ◌∷◌, ◌++◌, map, length, length-append, append_assoc, append-nil, if◌then◌else◌, arith,
}
use logsvc.Common.Text.{Bytes}
use logsvc.Clients.DefaultConnection.{DefaultConnection, serialized_send_message, error_occurred}
use logsvc.Clients.DefaultConnection.Answered.{
  is_for, unkept, waits, waits-append, Accounts, reached-Accounts,
}
use logsvc.Clients.DefaultConnection.Handlers.{failed-by, kept_with, let_go, same_state}
use logsvc.Clients.DefaultConnection.Serialized.{
  Step, runs, has_failed, Reachable, stepped, IsSerial, IsHeld, held, idle, busy, serialized_lem,
}
use logsvc.Daemon.SocketSession.{SocketCall}
use logsvc.Errors.{Result, ok, throw, socket_error}
use logsvc.Log.Receivable.{Receivable}
use logsvc.Platform.{Platform}

-- What a future gets when the connection is lost.
abbrev pub lost : Bytes → ℕ → Option ℕ × Result Receivable
lost message number = (some number, throw (socket_error message))

-- Any thread that waits gets the mutex, or a call on the socket fails with the message.
pub data Fail (message : Bytes) (st st' : DefaultConnection) : Type 0 where
  gets_mutex :
      (before after : List (ℕ × Bytes)) (n : ℕ) (bytes : Bytes)
      → st.mutex_locked ≡ false
      → st.waiting ≡ before ++ (n, bytes) ∷ after
      → st' ≡ serialized_send_message n bytes (record st { waiting = before ++ after })
      → Fail message st st'
  call_fails :
      (before after : List SocketCall) (call : SocketCall)
      → st.calls ≡ before ++ call ∷ after
      → error_occurred message (record st { calls = before ++ after }) ≡ (ok tt, st')
      → Fail message st st'

-- That many of these steps, while nobody sends.
pub data Fails (message : Bytes) : ℕ → DefaultConnection → DefaultConnection → Type 0 where
  done : (st : DefaultConnection) → Fails message 0 st st
  further :
      (k : ℕ) (st u v : DefaultConnection)
      → Fail message st u
      → Fails message k u v
      → Fails message (1 + k) st v

abbrev pub count : ℕ → List ℕ → ℕ
count n [] = 0
count n (m ∷ numbers) = is_for n (some m) + count n numbers

-- 1 while send number n is under way or waits, else 0.
abbrev pub pending : ℕ → DefaultConnection → ℕ
pending n st = unkept n st.current_promise + waits n st.waiting

abbrev holders : DefaultConnection → ℕ
holders st = if st.mutex_locked then 1 else 0

-- A thread that waits has two steps to go, the one that has the mutex one.
abbrev pub left : DefaultConnection → ℕ
left st = 2 * length st.waiting + holders st

-- Nobody waits, the mutex is free, and no future is without a result.
pub record Ended (st : DefaultConnection) : Type 0 where
  pub none_waiting : st.waiting ≡ []
  pub free : st.mutex_locked ≡ false
  pub none_pending : (n : ℕ) → pending n st ≡ 0

-- Between `st` and `st'` the futures of `numbers` have got the error, in that order, and the sends that
-- were pending are those and the ones that still are.
pub record Told (message : Bytes) (k : ℕ) (st st' : DefaultConnection) : Type 0 where
  pub numbers : List ℕ
  pub results : st'.results ≡ st.results ++ map (lost message) numbers
  pub each : (n : ℕ) → count n numbers + pending n st' ≡ pending n st
  pub fewer : k + left st' ≡ left st

got_mutex :
    (message : Bytes) (before after : List (ℕ × Bytes)) (n : ℕ) (bytes : Bytes)
    (st : DefaultConnection)
    → st.mutex_locked ≡ false
    → st.waiting ≡ before ++ (n, bytes) ∷ after
    → ((k : ℕ) → Accounts k st)
    → Told message 1 st (serialized_send_message n bytes (record st { waiting = before ++ after }))
unfolding serialized_send_message
got_mutex message before after n bytes st free q accounts = record {
  numbers = [];
  results = sym (append-nil st.results);
  each = λ k. omega (
    arith,
    (accounts k).settled free,
    ap (waits k) q,
    waits-append k before ((n, bytes) ∷ after),
    waits-append k before after,
  );
  fewer =
      let unlocked : holders st ≡ 0 = rw free in
      omega (
        arith,
        unlocked,
        ap length q,
        length-append before ((n, bytes) ∷ after),
        length-append before after,
      );
}

has_error :
    (P : Platform) (message : Bytes) (st u : DefaultConnection)
    → IsHeld P u
    → st.mutex_locked ≡ u.mutex_locked
    → st.current_promise ≡ u.current_promise
    → st.waiting ≡ u.waiting
    → st.results ≡ u.results
    → Told message 1 st
        (let_go (kept_with (record u { current_receivable = none }) (throw (socket_error message))))
has_error P message st u h l p w r = record {
  numbers = h.number ∷ [];
  results =
      ap (λ (o : Option ℕ). u.results ++ (o, throw (socket_error message)) ∷ []) h.for_number
      ∙ ap (λ (t : List (Option ℕ × Result Receivable)). t ++ lost message h.number ∷ []) (sym r);
  each = λ k.
      let e : unkept k st.current_promise ≡ is_for k (some h.number) =
        ap (unkept k) p ∙ rw (h.unkept, h.for_number) refl in
      omega (arith, e, ap (waits k) w);
  fewer = let locked : holders st ≡ 1 = rw (l, h.locked) in omega (arith, locked, ap length w);
}

count-append : (n : ℕ) (xs ys : List ℕ) → count n (xs ++ ys) ≡ count n xs + count n ys
count-append n [] ys = omega arith
count-append n (x ∷ xs) ys = omega (arith, count-append n xs ys)

lost-append :
    (message : Bytes) (xs ys : List ℕ)
    → map (lost message) (xs ++ ys) ≡ map (lost message) xs ++ map (lost message) ys
lost-append message [] ys = refl
lost-append message (x ∷ xs) ys = ap (◌∷◌ (lost message x)) (lost-append message xs ys)

Told-refl : (message : Bytes) (st : DefaultConnection) → Told message 0 st st
Told-refl message st = record {
  numbers = [];
  results = sym (append-nil st.results);
  each = λ n. omega arith;
  fewer = omega arith;
}

Told-trans :
    (message : Bytes) (j k : ℕ) (st u v : DefaultConnection)
    → Told message j st u
    → Told message k u v
    → Told message (j + k) st v
Told-trans message j k st u v a b = record {
  numbers = a.numbers ++ b.numbers;
  results =
      b.results
      ∙ ap (λ (t : List (Option ℕ × Result Receivable)). t ++ map (lost message) b.numbers)
          a.results
      ∙ append_assoc st.results (map (lost message) a.numbers) (map (lost message) b.numbers)
      ∙ ap (λ (t : List (Option ℕ × Result Receivable)). st.results ++ t)
          (sym (lost-append message a.numbers b.numbers));
  each = λ n. omega (arith, a.each n, b.each n, count-append n a.numbers b.numbers);
  fewer = omega (arith, a.fewer, b.fewer);
}

module _ (P : Platform) (message : Bytes) where
  Fail-Step : (st u : DefaultConnection) → Fail message st u → Step P st u
  Fail-Step st u (gets_mutex before after n bytes free q e) = runs before after n bytes free q e
  Fail-Step st u (call_fails before after call q e) = has_failed before after call message q e

  Fail-Told : (st u : DefaultConnection) → Reachable P st → Fail message st u → Told message 1 st u
  Fail-Told st u r (gets_mutex before after n bytes free q e) =
      subst (Told message 1 st) (sym e)
        (got_mutex message before after n bytes st free q (λ k. reached-Accounts P k st r))
  Fail-Told st u r (call_fails before after call q e) =
      let v = record st { calls = before ++ after } in
      let h = held P st before after call (serialized_lem P st r) q in
      subst (Told message 1 st) (sym (same_state e (failed-by v message h.unkept)))
        (has_error P message st v h refl refl refl refl)

  -- A run of failures can go on, or everybody has been told.
  goes_on :
      (st : DefaultConnection)
      → Reachable P st
      → Ended st ⊎ ((u : DefaultConnection) × Fail message st u)
  goes_on st r = by_state (serialized_lem P st r) st.waiting refl
    where
      by_state :
          IsSerial P st
          → (waiting : List (ℕ × Bytes)) → st.waiting ≡ waiting
          → Ended st ⊎ ((u : DefaultConnection) × Fail message st u)
      by_state (idle free none_now quiet) [] e = inl (record {
        none_waiting = e;
        free = free;
        none_pending = λ n. omega (arith, (reached-Accounts P n st r).settled free, ap (waits n) e);
      })
      by_state (idle free none_now quiet) ((n, bytes) ∷ rest) e =
          inr (_, gets_mutex [] rest n bytes free e refl)
      by_state (busy call n locked q number unkept_now) waiting e =
          inr (_, call_fails [] [] call q (failed-by (record st { calls = [] }) message unkept_now))

  -- From any reachable state, while nobody sends and every call on the socket fails, whichever of the
  -- waiting threads gets the mutex each time: after `k` steps the futures of some sends have got a
  -- SocketError, and those are what was pending less what still is; each step leaves one step less to
  -- go; and either the run can go on, or nobody waits, the mutex is free, and nothing is pending any
  -- more. So every run of this kind ends, and when it does, the future of each send that was under way
  -- or waited has got one error.
  pub failing-Told :
      (k : ℕ) (st st' : DefaultConnection)
      → Reachable P st
      → Fails message k st st'
      → Told message k st st' × (Ended st' ⊎ ((u : DefaultConnection) × Fail message st' u))
  failing-Told k st st' r (done s) = (Told-refl message s, goes_on s r)
  failing-Told k st st' r (further j s u v f fs) =
      let rest = failing-Told j u v (stepped s u r (Fail-Step s u f)) fs in
      (Told-trans message 1 j s u v (Fail-Told s u r f) rest.0, rest.1)
