-- ===== src/Daemon/SocketSession/Reachable.antt =====
-- The states of a connection: the calls on its socket that have not completed, and what is completed
-- next. `calls` is here the list of the calls that are outstanding.
use logsvc.Common.{
  ℕ, ◌≡◌, refl, ◌∙◌, ap, sym, subst, true, inl, inr, Option, none, some, List, [], ◌∷◌, ◌++◌,
  length, Bool-cases,
}
use logsvc.Common.Text.{Bytes}
use logsvc.Daemon.SocketSession.{
  SocketSession, SocketCall, async_read, async_write, construct, bytes_received, write_succeeded,
  error_occurred, listen_for_new_header, listen_for, begin_payload, take_payload, on_socket,
  act_on_executor, reply, start_listen, receive,
}
use logsvc.Errors.{Result, ok, throw, fault, Result-cases}
use logsvc.Exec.{resume}
use logsvc.Log.Interfaces.{Deliverable, Executor}
use logsvc.Log.Factory.{create}
use logsvc.Log.Receivable.{Receivable, get_payload_length, is_final_message, read_payload, act}
use logsvc.Platform.{Platform}

module _ {S : Type 0} (P : Platform) (exec : Executor S) where
  -- One completion on the socket, for which the handler returned.
  pub data Step (st st' : SocketSession S) : Type 0 where
    has_read :
        (before after : List SocketCall) (n : ℕ) (bytes : Bytes)
        → st.calls ≡ before ++ async_read n ∷ after
        → length bytes ≡ n
        → bytes_received P exec bytes (record st { calls = before ++ after }) ≡ (ok tt, st')
        → Step st st'
    has_written :
        (before after : List SocketCall) (data_written : Bytes)
        → st.calls ≡ before ++ async_write data_written ∷ after
        → write_succeeded (record st { calls = before ++ after }) ≡ (ok tt, st')
        → Step st st'
    has_failed :
        (before after : List SocketCall) (call : SocketCall) (reason : Bytes)
        → st.calls ≡ before ++ call ∷ after
        → error_occurred reason (record st { calls = before ++ after }) ≡ (ok tt, st')
        → Step st st'

  -- The states after start_listen on a new connection.
  pub data Reachable : SocketSession S → Type 0 where
    started : (s : S) → Reachable (start_listen (construct s))
    stepped : (st st' : SocketSession S) → Reachable st → Step st st' → Reachable st'

  -- Where a connection can be. At most one call is outstanding.
  pub data IsReady (st : SocketSession S) : Type 0 where
    at_header :
        st.has_socket ≡ true
        → st.current_receivable ≡ none
        → st.calls ≡ async_read 12 ∷ []
        → IsReady st
    at_payload :
        (r : Receivable)
        → st.has_socket ≡ true
        → st.current_receivable ≡ some r
        → st.calls ≡ async_read (get_payload_length r) ∷ []
        → IsReady st
    at_reply :
        (r : Receivable) (answer : Bytes)
        → st.has_socket ≡ true
        → st.current_receivable ≡ some r
        → st.calls ≡ async_write answer ∷ []
        → IsReady st
    stopped : st.has_socket ≡ true → st.calls ≡ [] → IsReady st

  -- What a handler that returned has left.
  IsReady-after :
      (r : Result (Unit {0}) × SocketSession S) (st st' : SocketSession S)
      → r ≡ (ok tt, st')
      → r ≡ (ok tt, st)
      → IsReady st
      → IsReady st'
  IsReady-after r st st' e q h =
      subst IsReady (ap (λ (t : Result (Unit {0}) × SocketSession S). t.1) (sym q ∙ e)) h

  -- A handler that threw did not return.
  not_after :
      {A : Type 0} (r : Result (Unit {0}) × SocketSession S) (st st' : SocketSession S)
      (x : Result (Unit {0}))
      → r ≡ (ok tt, st')
      → r ≡ (x, st)
      → ¬ (x ≡ ok tt)
      → A
  not_after r st st' x e q n =
      elim (n (ap (λ (t : Result (Unit {0}) × SocketSession S). t.0) (sym q ∙ e))) [ ]

  module _ (st st' : SocketSession S) (connected : st.has_socket ≡ true)
      (idle : st.calls ≡ []) where
    header_read : (c : Result Receivable) → begin_payload P exec c st ≡ (ok tt, st') → IsReady st'
    unfolding begin_payload on_socket
    header_read (ok r) e =
        IsReady-after _
          (record st {
            current_receivable = some r;
            calls = async_read (get_payload_length r) ∷ st.calls;
          })
          st' e (rw connected) (at_payload r connected refl (rw idle))
    header_read (throw x) e = cc
    header_read fault e = cc

    replied :
        (r : Receivable) (d : Option Deliverable)
        → st.current_receivable ≡ some r
        → reply P exec d st ≡ (ok tt, st')
        → IsReady st'
    unfolding reply on_socket
    replied r none current e = not_after _ st st' fault e (rw connected) (λ q. cc)
    replied r (some d) current e = elim (Result-cases d.get_header) [
      | inl (h, eh) ↦ elim (Result-cases d.get_payload) [
        | inl (p, ep) ↦
            IsReady-after _ (record st { calls = async_write (h ++ p) ∷ st.calls }) st' e
              (rw (connected, eh, ep)) (at_reply r (h ++ p) connected current (rw idle))
        | inr (inl (x, ep)) ↦ not_after _ st st' (throw x) e (rw (connected, eh, ep)) (λ q. cc)
        | inr (inr ep) ↦ not_after _ st st' fault e (rw (connected, eh, ep)) (λ q. cc)
      ]
      | inr (inl (x, eh)) ↦ not_after _ st st' (throw x) e (rw (connected, eh)) (λ q. cc)
      | inr (inr eh) ↦ not_after _ st st' fault e (rw (connected, eh)) (λ q. cc)
    ]

  -- Acting and replying, after the payload has been taken.
  acted :
      (st st' : SocketSession S) (r : Receivable)
      → st.has_socket ≡ true
      → st.calls ≡ []
      → st.current_receivable ≡ some r
      → resume (reply P exec) (act_on_executor P exec r st) ≡ (ok tt, st')
      → IsReady st'
  unfolding act_on_executor
  acted st st' r connected idle current e = by_answer (act P exec r st.executor) e
    where
      by_answer :
          (a : Result (Option Deliverable) × S)
          → resume (reply P exec) (a.0, record st { executor = a.1 }) ≡ (ok tt, st')
          → IsReady st'
      by_answer (ok d, s) e = replied (record st { executor = s }) st' connected idle r d current e
      by_answer (throw x, s) e = cc
      by_answer (fault, s) e = cc

  payload_read :
      (st st' : SocketSession S) (c : Result Receivable)
      → st.has_socket ≡ true
      → st.calls ≡ []
      → resume
          (λ r. logsvc.Exec.◌>>=◌ (act_on_executor P exec r) (reply P exec))
          (take_payload P exec c st)
        ≡ (ok tt, st')
      → IsReady st'
  unfolding take_payload
  payload_read st st' (ok r) connected idle e =
      acted (record st { current_receivable = some r }) st' r connected idle refl e
  payload_read st st' (throw x) connected idle e = cc
  payload_read st st' fault connected idle e = cc

  -- The completion of a read: of a header if nothing is announced, else of the payload.
  pub received :
      (st st' : SocketSession S) (bytes : Bytes)
      → st.has_socket ≡ true
      → st.calls ≡ []
      → bytes_received P exec bytes st ≡ (ok tt, st')
      → IsReady st'
  unfolding bytes_received
  received st st' bytes connected idle e = by_current st.current_receivable e
    where
      by_current : (c : Option Receivable) → receive P exec c bytes st ≡ (ok tt, st') → IsReady st'
      by_current none e = header_read st st' connected idle (create P bytes) e
      by_current (some r) e = payload_read st st' (read_payload bytes r) connected idle e

  pub written :
      (st st' : SocketSession S)
      → st.has_socket ≡ true
      → st.calls ≡ []
      → write_succeeded st ≡ (ok tt, st')
      → IsReady st'
  unfolding write_succeeded listen_for_new_header start_listen
  written st st' connected idle e = by_current st.current_receivable e
    where
      by_current : (c : Option Receivable) → listen_for c st ≡ (ok tt, st') → IsReady st'
      by_current none e = cc
      by_current (some r) e = elim (Bool-cases (is_final_message r)) [
        | inl final ↦
            IsReady-after _ (record st { current_receivable = none }) st' e (rw final)
              (stopped connected idle)
        | inr more ↦
            IsReady-after _
              (record st { current_receivable = none; calls = async_read 12 ∷ st.calls }) st' e
              (rw (more, connected)) (at_header connected refl (rw idle))
      ]
