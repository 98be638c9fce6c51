-- ===== src/Daemon/SocketSession/Safety.antt =====
-- A connection has at most one call outstanding, and the completion of a write is never taken for a
-- connection that has no current request.
use logsvc.Common.{only_one, none_left, ◌≡◌, refl, ◌∙◌, ap, sym, subst, true, List, [], ◌∷◌, ◌++◌}
use logsvc.Common.Text.{Bytes}
use logsvc.Daemon.SocketSession.{
  SocketSession, SocketCall, async_write, write_succeeded, error_occurred, listen_for_new_header,
  listen_for, start_listen,
}
use logsvc.Daemon.SocketSession.Reachable.{
  Step, has_read, has_written, has_failed, Reachable, started, stepped, IsReady, at_header,
  at_payload, at_reply, stopped, received, written,
}
use logsvc.Errors.{Result, ok}
use logsvc.Log.Interfaces.{Executor}
use logsvc.Platform.{Platform}

module _ {S : Type 0} (P : Platform) (exec : Executor S) where
  -- The call that completes was the only one.
  last_call :
      (st : SocketSession S) (before after : List SocketCall) (call : SocketCall)
      → IsReady P exec st
      → st.calls ≡ before ++ call ∷ after
      → (st.has_socket ≡ true) × (before ++ after ≡ [])
  last_call st before after call (at_header on idle q) e =
      (on, (only_one before after call _ (sym q ∙ e)).1)
  last_call st before after call (at_payload r on current q) e =
      (on, (only_one before after call _ (sym q ∙ e)).1)
  last_call st before after call (at_reply r answer on current q) e =
      (on, (only_one before after call _ (sym q ∙ e)).1)
  last_call st before after call (stopped on q) e =
      elim (none_left before after call (sym q ∙ e)) [ ]

  Step-IsReady :
      (st st' : SocketSession S) → Step P exec st st' → IsReady P exec st → IsReady P exec st'
  unfolding error_occurred
  Step-IsReady st st' (has_read before after n bytes q l e) h =
      let (on, idle) = last_call st before after _ h q in
      received P exec (record st { calls = before ++ after }) st' bytes on idle e
  Step-IsReady st st' (has_written before after b q e) h =
      let (on, idle) = last_call st before after _ h q in
      written P exec (record st { calls = before ++ after }) st' on idle e
  Step-IsReady st st' (has_failed before after call reason q e) h =
      let (on, idle) = last_call st before after _ h q in
      subst (IsReady P exec) (ap (λ (t : Result (Unit {0}) × SocketSession S). t.1) e)
        (stopped on idle)

  -- In every state that a connection reaches by completions, in any order and of any contents, at
  -- most one call on the socket is outstanding: the read of a header with no current request, the
  -- read of exactly the announced payload, the write of the answer to the current request, or none.
  pub reachable_lem : (st : SocketSession S) → Reachable P exec st → IsReady P exec st
  unfolding start_listen
  reachable_lem st (started s) = at_header refl refl refl
  reachable_lem st (stepped u v r step) = Step-IsReady u v step (reachable_lem u r)

  -- In every reachable state, the completion of the outstanding write finds a current request: the
  -- handler returns, and follows no null pointer.
  pub write_succeeded_lem :
      (st : SocketSession S) (before after : List SocketCall) (answer : Bytes)
      → Reachable P exec st
      → st.calls ≡ before ++ async_write answer ∷ after
      → (write_succeeded (record st { calls = before ++ after })).0 ≡ ok tt
  unfolding write_succeeded listen_for_new_header
  write_succeeded_lem st before after answer r e = by_place (reachable_lem st r)
    where
      by_place :
          IsReady P exec st
          → (listen_for st.current_receivable (record st { calls = before ++ after })).0 ≡ ok tt
      by_place (at_header on idle q) = let (w, _) = only_one before after _ _ (sym q ∙ e) in cc
      by_place (at_payload c on current q) =
          let (w, _) = only_one before after _ _ (sym q ∙ e) in cc
      by_place (at_reply c b on current q) = rw (current, listen_for)
      by_place (stopped on q) = elim (none_left before after _ (sym q ∙ e)) [ ]
