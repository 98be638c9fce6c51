-- ===== src/Clients/DefaultConnection/Serialized.antt =====
-- The threads of a connection take turns: one request is under way at a time, and each promise is kept
-- at most once.
use logsvc.Common.{
  ℕ, ◌≡◌, refl, ◌∙◌, ap, sym, subst, true, false, Option, none, some, List, [], ◌∷◌, ◌++◌, only_one,
  none_left,
}
use logsvc.Common.Text.{Bytes}
use logsvc.Clients.DefaultConnection.{
  DefaultConnection, construct, send, serialized_send_message, bytes_received, write_succeeded,
  error_occurred,
}
use logsvc.Clients.DefaultConnection.Handlers.{
  failed-by, queued, same_state, sent, Received, begins, ends, received,
}
use logsvc.Daemon.SocketSession.{SocketCall, async_read, async_write}
use logsvc.Errors.{ok, throw, socket_error}
use logsvc.Log.Interfaces.{Deliverable}
use logsvc.Log.Receivable.{get_payload_length}
use logsvc.Platform.{Platform}

module _ (P : Platform) where
  -- A call of send, a thread that gets the mutex, or a completion whose handler returned.
  pub data Step (st st' : DefaultConnection) : Type 0 where
    asks : (d : Deliverable) (n : ℕ) → send d st ≡ (ok n, st') → Step st st'
    runs :
        (before after : List (ℕ × Bytes)) (n : ℕ) (bytes : Bytes)
        → st.mutex_locked ≡ false
        → st.waiting ≡ before ++ (n, bytes) ∷ after
        → st' ≡ serialized_send_message n bytes (record st { waiting = before ++ after })
        → Step st st'
    has_read :
        (before after : List SocketCall) (n : ℕ) (bytes : Bytes)
        → st.calls ≡ before ++ async_read n ∷ after
        → bytes_received P bytes (record st { calls = before ++ after }) ≡ (ok tt, st')
        → Step st st'
    has_written :
        (before after : List SocketCall) (bytes : Bytes)
        → st.calls ≡ before ++ async_write bytes ∷ after
        → st' ≡ write_succeeded (record st { calls = before ++ after })
        → Step st st'
    has_failed :
        (before after : List SocketCall) (call : SocketCall) (message : Bytes)
        → st.calls ≡ before ++ call ∷ after
        → error_occurred message (record st { calls = before ++ after }) ≡ (ok tt, st')
        → Step st st'

  pub data Reachable : DefaultConnection → Type 0 where
    started : Reachable construct
    stepped : (st st' : DefaultConnection) → Reachable st → Step st st' → Reachable st'

  -- The mutex is free and nothing is under way, or it is held for one call on the socket and for a
  -- promise that has not been kept.
  pub data IsSerial (st : DefaultConnection) : Type 0 where
    idle : st.mutex_locked ≡ false → st.current_receivable ≡ none → st.calls ≡ [] → IsSerial st
    busy :
        (call : SocketCall) (n : ℕ)
        → st.mutex_locked ≡ true
        → st.calls ≡ call ∷ []
        → st.current_promise.number ≡ some n
        → st.current_promise.satisfied ≡ false
        → IsSerial st

  -- While a handler runs: the mutex is held, for a promise that has not been kept.
  pub record IsHeld (st : DefaultConnection) : Type 0 where
    pub locked : st.mutex_locked ≡ true
    pub number : ℕ
    pub for_number : st.current_promise.number ≡ some number
    pub unkept : st.current_promise.satisfied ≡ false
    pub quiet : st.calls ≡ []

  pub held :
      (st : DefaultConnection) (before after : List SocketCall) (call : SocketCall)
      → IsSerial st
      → st.calls ≡ before ++ call ∷ after
      → IsHeld (record st { calls = before ++ after })
  held st before after call (idle free none_now q) e =
      elim (none_left before after call (sym q ∙ e)) [ ]
  held st before after call (busy c n locked q number unkept) e = record {
    locked = locked;
    number = n;
    for_number = number;
    unkept = unkept;
    quiet = (only_one before after call c (sym q ∙ e)).1;
  }

  received_lem : (st st' : DefaultConnection) → IsHeld st → Received st st' → IsSerial st'
  received_lem st st' h (begins r e) = subst IsSerial (sym e) (
      busy (async_read (get_payload_length r)) h.number h.locked
        (ap (λ (q : List SocketCall). async_read (get_payload_length r) ∷ q) h.quiet) h.for_number
        h.unkept)
  received_lem st st' h (ends r e) = subst IsSerial (sym e) (idle refl refl h.quiet)

  queued-IsSerial :
      (st : DefaultConnection) (bytes : Bytes) → IsSerial st → IsSerial (queued st bytes)
  queued-IsSerial st bytes (idle free none_now q) = idle free none_now q
  queued-IsSerial st bytes (busy c m locked q number unkept) = busy c m locked q number unkept

  asked :
      (st st' : DefaultConnection) (d : Deliverable) (n : ℕ)
      → IsSerial st
      → send d st ≡ (ok n, st')
      → IsSerial st'
  asked st st' d n h e =
      let q = sent d n st st' e in subst IsSerial (sym q.1) (queued-IsSerial st q.0 h)

  ran :
      (st : DefaultConnection) (rest : List (ℕ × Bytes)) (n : ℕ) (bytes : Bytes)
      → st.mutex_locked ≡ false
      → IsSerial st
      → IsSerial (serialized_send_message n bytes (record st { waiting = rest }))
  unfolding serialized_send_message
  ran st rest n bytes free (idle free' none_now q) =
      busy (async_write bytes) n refl (ap (λ (t : List SocketCall). async_write bytes ∷ t) q) refl
        refl
  ran st rest n bytes free (busy c m locked q number unkept) = absurd (cc)

  pub Step-IsSerial : (st st' : DefaultConnection) → Step st st' → IsSerial st → IsSerial st'
  unfolding write_succeeded
  Step-IsSerial st st' (asks d n e) h = asked st st' d n h e
  Step-IsSerial st st' (runs before after n bytes free q e) h =
      subst IsSerial (sym e) (ran st (before ++ after) n bytes free h)
  Step-IsSerial st st' (has_read before after n bytes q e) h =
      let k = held st before after _ h q in
      let u = record st { calls = before ++ after } in
      received_lem u st' k (received P u st' bytes k.unkept e)
  Step-IsSerial st st' (has_written before after bytes q e) h =
      let k = held st before after _ h q in
      subst IsSerial (sym e) (
        busy (async_read 12) k.number k.locked
          (ap (λ (t : List SocketCall). async_read 12 ∷ t) k.quiet) k.for_number k.unkept)
  Step-IsSerial st st' (has_failed before after call message q e) h =
      let k = held st before after _ h q in
      let u = record st { calls = before ++ after } in
      subst IsSerial (sym (same_state e (failed-by u message k.unkept))) (idle refl refl k.quiet)

  -- In every state of a connection, with any number of threads that send and go in any order, and with
  -- completions of any contents: either the mutex is free and nothing is under way, or it is held for
  -- exactly one call on the socket and for the promise of one send, which has not been kept yet.
  pub serialized_lem : (st : DefaultConnection) → Reachable st → IsSerial st
  serialized_lem st started = idle refl refl refl
  serialized_lem st (stepped u v r step) = Step-IsSerial u v step (serialized_lem u r)

  -- In every reachable state, when the outstanding call fails, error_occurred returns: the promise of the
  -- send under way is kept for the first time, with the error, and the mutex is free again.
  pub error_occurred_lem :
      (st : DefaultConnection) (before after : List SocketCall) (call : SocketCall)
      (message : Bytes)
      → Reachable st
      → st.calls ≡ before ++ call ∷ after
      → (n : ℕ) × (st' : DefaultConnection) × (error_occurred message
            (record st { calls = before ++ after })
          ≡ (ok tt, st'))
        × (st'.mutex_locked ≡ false)
        × (st'.results ≡ st.results ++ (some n, throw (socket_error message)) ∷ [])
  error_occurred_lem st before after call message r q =
      let k = held st before after call (serialized_lem st r) q in
      (
        k.number,
        _,
        failed-by (record st { calls = before ++ after }) message k.unkept,
        refl,
        ap (λ (o : Option ℕ). st.results ++ (o, throw (socket_error message)) ∷ []) k.for_number,
      )
