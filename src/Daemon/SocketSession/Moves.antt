-- ===== src/Daemon/SocketSession/Moves.antt =====
-- What the handlers of a connection do to its executor and to its listeners: only `act` changes the
-- executor, and no completion changes the listeners.
use logsvc.Common.{◌≡◌, refl, ◌∙◌, ap, subst, ◌⊎◌, inl, inr, Option, none, some, ◌++◌, Bool-cases}
use logsvc.Common.Text.{Bytes}
use logsvc.Daemon.SocketSession.{
  SocketSession, bytes_received, write_succeeded, error_occurred, listen_for_new_header, listen_for,
  begin_payload, take_payload, on_socket, act_on_executor, reply, start_listen, receive,
}
use logsvc.Daemon.SocketSession.Reachable.{Step, has_read, has_written, has_failed}
use logsvc.Errors.{Result, ok, throw, fault, Result-cases}
use logsvc.Exec.{resume}
use logsvc.Log.Factory.{create}
use logsvc.Log.Interfaces.{Deliverable, Executor}
use logsvc.Log.Receivable.{Receivable, read_payload, act, is_final_message}
use logsvc.Platform.{Platform}

module _ {S : Type 0} (P : Platform) (exec : Executor S) where
  -- The executor is as it was, or an object has acted on it; the listeners are as they were.
  pub record Moves (st st' : SocketSession S) : Type 0 where
    pub same_listeners : st'.listeners ≡ st.listeners
    pub same_hearing : st'.hears_socket ≡ st.hears_socket
    pub acted :
        (st'.executor ≡ st.executor)
        ⊎ ((r : Receivable) × (st'.executor ≡ (act P exec r st.executor).1))

  -- Neither is touched.
  record Quiet (st st' : SocketSession S) : Type 0 where
    same_executor : st'.executor ≡ st.executor
    same_listeners : st'.listeners ≡ st.listeners
    same_hearing : st'.hears_socket ≡ st.hears_socket

  Quiet-Moves : (u v w : SocketSession S) → Moves u v → Quiet v w → Moves u w
  Quiet-Moves u v w m q = record {
    same_listeners = q.same_listeners ∙ m.same_listeners;
    same_hearing = q.same_hearing ∙ m.same_hearing;
    acted = elim m.acted [
      | inl e ↦ inl (q.same_executor ∙ e)
      | inr (r, e) ↦ inr (r, q.same_executor ∙ e)
    ];
  }

  Moves-refl : (st : SocketSession S) → Moves st st
  Moves-refl st = record { same_listeners = refl; same_hearing = refl; acted = inl refl }

  Quiet-refl : (st : SocketSession S) → Quiet st st
  Quiet-refl st = record { same_executor = refl; same_listeners = refl; same_hearing = refl }

  reply-Quiet : (d : Option Deliverable) (st : SocketSession S) → Quiet st (reply P exec d st).1
  unfolding reply on_socket
  reply-Quiet none st = elim (Bool-cases st.has_socket) [
    | inl connected ↦ rw connected (Quiet-refl _)
    | inr gone ↦ rw gone (Quiet-refl _)
  ]
  reply-Quiet (some d) st = elim (Bool-cases st.has_socket) [
    | inl connected ↦ elim (Result-cases d.get_header) [
      | inl (h, eh) ↦ elim (Result-cases d.get_payload) [
        | inl (p, ep) ↦
            rw (connected, eh, ep)
              (record { same_executor = refl; same_listeners = refl; same_hearing = refl })
        | inr (inl (x, ep)) ↦ rw (connected, eh, ep) (Quiet-refl _)
        | inr (inr ep) ↦ rw (connected, eh, ep) (Quiet-refl _)
      ]
      | inr (inl (x, eh)) ↦ rw (connected, eh) (Quiet-refl _)
      | inr (inr eh) ↦ rw (connected, eh) (Quiet-refl _)
    ]
    | inr gone ↦ rw gone (Quiet-refl _)
  ]

  received-Moves :
      (bytes : Bytes) (st : SocketSession S) → Moves st (bytes_received P exec bytes st).1
  unfolding bytes_received begin_payload take_payload act_on_executor on_socket
  received-Moves bytes st = by_current st.current_receivable
    where
      begun : (c : Result Receivable) → Moves st (begin_payload P exec c st).1
      begun (ok r) = elim (Bool-cases st.has_socket) [
        | inl connected ↦
            rw connected (record { same_listeners = refl; same_hearing = refl; acted = inl refl })
        | inr gone ↦
            rw gone (record { same_listeners = refl; same_hearing = refl; acted = inl refl })
      ]
      begun (throw x) = Moves-refl st
      begun fault = Moves-refl st

      replied :
          (r : Receivable) (a : Result (Option Deliverable)) (s : S)
          → s ≡ (act P exec r st.executor).1
          → Moves st
              (resume (reply P exec) (a, record st { current_receivable = some r; executor = s })).1
      replied r (ok d) s e =
          Quiet-Moves st (record st { current_receivable = some r; executor = s }) _
            (record { same_listeners = refl; same_hearing = refl; acted = inr (r, e) })
            (reply-Quiet d (record st { current_receivable = some r; executor = s }))
      replied r (throw x) s e = record {
        same_listeners = refl;
        same_hearing = refl;
        acted = inr (r, e);
      }
      replied r fault s e = record {
        same_listeners = refl;
        same_hearing = refl;
        acted = inr (r, e);
      }

      taken :
          (c : Result Receivable)
          → Moves st
              (resume
                (λ r. logsvc.Exec.◌>>=◌ (act_on_executor P exec r) (reply P exec))
                (take_payload P exec c st)).1
      taken (ok r) = let a = act P exec r st.executor in replied r a.0 a.1 refl
      taken (throw x) = Moves-refl st
      taken fault = Moves-refl st

      by_current : (c : Option Receivable) → Moves st (receive P exec c bytes st).1
      by_current none = begun (create P bytes)
      by_current (some r) = taken (read_payload bytes r)

  written-Quiet : (st : SocketSession S) → Quiet st (write_succeeded st).1
  unfolding write_succeeded listen_for_new_header start_listen on_socket
  written-Quiet st = by_current st.current_receivable
    where
      by_current : (c : Option Receivable) → Quiet st (listen_for c st).1
      by_current none = Quiet-refl st
      by_current (some r) = elim (Bool-cases (is_final_message r)) [
        | inl final ↦
            rw final (record { same_executor = refl; same_listeners = refl; same_hearing = refl })
        | inr more ↦ elim (Bool-cases st.has_socket) [
          | inl connected ↦
              rw (more, connected)
                (record { same_executor = refl; same_listeners = refl; same_hearing = refl })
          | inr gone ↦
              rw (more, gone)
                (record { same_executor = refl; same_listeners = refl; same_hearing = refl })
        ]
      ]

  ended :
      (r : Result (Unit {0}) × SocketSession S) (st st' : SocketSession S)
      → r ≡ (ok tt, st')
      → Moves st r.1
      → Moves st st'
  ended r st st' e m = subst (Moves st) (ap (λ (t : Result (Unit {0}) × SocketSession S). t.1) e) m

  -- A completion whose handler returned.
  pub Step-Moves : (st st' : SocketSession S) → Step P exec st st' → Moves st st'
  unfolding error_occurred
  Step-Moves st st' (has_read before after n bytes q size e) =
      let m = received-Moves bytes (record st { calls = before ++ after }) in
      ended _ st st' e (record {
        same_listeners = m.same_listeners;
        same_hearing = m.same_hearing;
        acted = m.acted;
      })
  Step-Moves st st' (has_written before after written q e) =
      let m = written-Quiet (record st { calls = before ++ after }) in
      ended _ st st' e (record {
        same_listeners = m.same_listeners;
        same_hearing = m.same_hearing;
        acted = inl m.same_executor;
      })
  Step-Moves st st' (has_failed before after call reason q e) =
      ended _ st st' e (record { same_listeners = refl; same_hearing = refl; acted = inl refl })
