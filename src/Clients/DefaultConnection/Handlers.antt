-- ===== src/Clients/DefaultConnection/Handlers.antt =====
-- What the calls of send and the handlers that return leave, while a promise is unkept.
use logsvc.Common.{
  ℕ, ◌+◌, ◌≡◌, refl, ◌∙◌, ap, sym, Bool, true, false, inl, inr, Option, none, some, [], ◌∷◌, ◌++◌,
  if◌then◌else◌,
}
use logsvc.Common.Text.{Bytes, codes}
use logsvc.Clients.DefaultConnection.{
  DefaultConnection, send, set_promise, bytes_received, begin_payload, end_payload, receive,
  error_occurred,
}
use logsvc.Daemon.SocketSession.{async_read}
use logsvc.Errors.{Result, ok, throw, fault, Result-cases, logic_error, socket_error}
use logsvc.Exec.{resume}
use logsvc.Log.Factory.{create}
use logsvc.Log.Interfaces.{Deliverable}
use logsvc.Log.Receivable.{Receivable, get_payload_length, read_payload}
use logsvc.Platform.{Platform}

-- What a handler does last: socket->keep_alive() and socket_mutex->unlock().
abbrev pub let_go : DefaultConnection → DefaultConnection
let_go st = record st { keep_alives = st.keep_alives + 1; mutex_locked = false }

abbrev pub kept_with : DefaultConnection → Result Receivable → DefaultConnection
kept_with st r = record st {
  current_promise = record st.current_promise { satisfied = true };
  results = st.results ++ (st.current_promise.number, r) ∷ [];
}

set_promise-by :
    (st : DefaultConnection) (r : Result Receivable)
    → st.current_promise.satisfied ≡ false
    → set_promise r st ≡ (ok tt, kept_with st r)
unfolding set_promise
set_promise-by st r unkept =
    ap
      (λ (b : Bool).
        if◌then◌else◌ {A = Result (Unit {0}) × DefaultConnection} b
          (throw (logic_error (codes "promise already satisfied")), st) (ok tt, kept_with st r))
      unkept

-- What error_occurred does while the mutex is held.
pub failed-by :
    (st : DefaultConnection) (message : Bytes)
    → st.current_promise.satisfied ≡ false
    → error_occurred message st ≡ (
      ok tt,
      let_go (kept_with (record st { current_receivable = none }) (throw (socket_error message))),
    )
unfolding error_occurred
failed-by st message unkept =
    ap (resume (λ _ u. (ok tt, let_go u))) (
      set_promise-by (record st { current_receivable = none }) (throw (socket_error message))
        unkept)

abbrev pub queued : DefaultConnection → Bytes → DefaultConnection
queued st bytes = record st { sends = st.sends + 1; waiting = st.waiting ++ (st.sends, bytes) ∷ [] }

-- The state in a result that is known twice.
pub same_state :
    {A : Type 0} {r : Result A × DefaultConnection} {x y : Result A} {st st' : DefaultConnection}
    → r ≡ (x, st')
    → r ≡ (y, st)
    → st' ≡ st
same_state {A} e q = ap (λ (t : Result A × DefaultConnection). t.1) (sym e ∙ q)

-- A send that returns leaves a thread that waits with the data.
pub sent :
    (d : Deliverable) (n : ℕ) (st st' : DefaultConnection)
    → send d st ≡ (ok n, st')
    → (bytes : Bytes) × (st' ≡ queued st bytes)
unfolding send
sent d n st st' e = elim (Result-cases d.get_header) [
  | inl (header, eh) ↦ elim (Result-cases d.get_payload) [
    | inl (payload, ep) ↦
        let q : send d st ≡ (ok st.sends, queued st (header ++ payload)) = rw (eh, ep) in
        (header ++ payload, same_state e q)
    | inr (inl (x, ep)) ↦
        let q : send d st ≡ (throw x, st) = rw (eh, ep) in
        let bad : throw x ≡ ok n = ap (λ (t : Result ℕ × DefaultConnection). t.0) (sym q ∙ e) in
        absurd (cc)
    | inr (inr ep) ↦
        let q : send d st ≡ (fault, st) = rw (eh, ep) in
        let bad : fault ≡ ok n = ap (λ (t : Result ℕ × DefaultConnection). t.0) (sym q ∙ e) in
        absurd (cc)
  ]
  | inr (inl (x, eh)) ↦
      let q : send d st ≡ (throw x, st) = rw eh in
      let bad : throw x ≡ ok n = ap (λ (t : Result ℕ × DefaultConnection). t.0) (sym q ∙ e) in
      absurd (cc)
  | inr (inr eh) ↦
      let q : send d st ≡ (fault, st) = rw eh in
      let bad : fault ≡ ok n = ap (λ (t : Result ℕ × DefaultConnection). t.0) (sym q ∙ e) in
      absurd (cc)
]

-- A payload is asked for, or the answer is complete.
pub data Received (st st' : DefaultConnection) : Type 0 where
  begins :
      (r : Receivable)
      → st' ≡ record st {
        current_receivable = some r;
        calls = async_read (get_payload_length r) ∷ st.calls;
      }
      → Received st st'
  ends :
      (r : Receivable)
      → st' ≡ let_go (kept_with (record st { current_receivable = none }) (ok r))
      → Received st st'

module _ (P : Platform) where
  pub received :
      (st st' : DefaultConnection) (bytes : Bytes)
      → st.current_promise.satisfied ≡ false
      → bytes_received P bytes st ≡ (ok tt, st')
      → Received st st'
  unfolding bytes_received begin_payload end_payload receive
  received st st' bytes unkept e = by_current st.current_receivable e
    where
      begun : (c : Result Receivable) → begin_payload P c st ≡ (ok tt, st') → Received st st'
      begun (ok r) e = begins r (same_state e refl)
      begun (throw x) e = cc
      begun fault e = cc

      ended : (c : Result Receivable) → end_payload P c st ≡ (ok tt, st') → Received st st'
      ended (ok r) e =
          let t = record st { current_receivable = none } in
          ends r
            (same_state e (ap (resume (λ _ u. (ok tt, let_go u))) (set_promise-by t (ok r) unkept)))
      ended (throw x) e = cc
      ended fault e = cc

      by_current : (c : Option Receivable) → receive P c bytes st ≡ (ok tt, st') → Received st st'
      by_current none e = begun (create P bytes) e
      by_current (some r) e = ended (read_payload bytes r) e
