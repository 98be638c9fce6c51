-- ===== src/Clients/DefaultConnection/Answered.antt =====
-- Every future gets one answer: what a send's promise is, from the call of send to the end of the
-- connection.
use logsvc.Common.{
  ℕ, ◌+◌, ◌<◌, ◌≡◌, refl, ◌∙◌, ap, sym, subst, Bool, true, false, Option, none, some, List, [], inl,
  inr, Option-cases, Option-same, Bool-cases, ◌∷◌, ◌++◌, if◌then◌else◌, ◌==◌, ltb, lt→ltb, arith,
}
use logsvc.Common.Text.{Bytes}
use logsvc.Clients.DefaultConnection.{
  DefaultConnection, Promise, destroy, join_threads, end_thread, break_promise, drop_promise,
  new_promise, construct, serialized_send_message, write_succeeded, broken_promise,
}
use logsvc.Clients.DefaultConnection.Handlers.{
  let_go, kept_with, failed-by, queued, same_state, sent, Received, begins, ends, received,
}
use logsvc.Clients.DefaultConnection.Serialized.{
  Step, asks, runs, has_read, has_written, has_failed, Reachable, started, stepped, serialized_lem,
  held,
}
use logsvc.Errors.{Result}
use logsvc.Log.Receivable.{Receivable}
use logsvc.Platform.{Platform}

-- 1 if it is the number, and 0 if not.
abbrev pub is_for : ℕ → Option ℕ → ℕ
is_for k none = 0
is_for k (some n) = if k == n then 1 else 0

-- How many results the future of send number k has got.
abbrev pub answers : ℕ → List (Option ℕ × Result Receivable) → ℕ
answers k [] = 0
answers k (r ∷ results) = is_for k r.0 + answers k results

abbrev pub unkept : ℕ → Promise → ℕ
unkept k p = if p.satisfied then 0 else is_for k p.number

abbrev pub waits : ℕ → List (ℕ × Bytes) → ℕ
waits k [] = 0
waits k (w ∷ waiting) = is_for k (some w.0) + waits k waiting

abbrev made : ℕ → ℕ → ℕ
made k sends = if ltb k sends then 1 else 0

answers-append :
    (k : ℕ) (results more : List (Option ℕ × Result Receivable))
    → answers k (results ++ more) ≡ answers k results + answers k more
answers-append k [] more = omega arith
answers-append k (r ∷ results) more = omega (arith, answers-append k results more)

pub waits-append :
    (k : ℕ) (waiting more : List (ℕ × Bytes))
    → waits k (waiting ++ more) ≡ waits k waiting + waits k more
waits-append k [] more = omega arith
waits-append k (w ∷ waiting) more = omega (arith, waits-append k waiting more)

made-suc : (k sends : ℕ) → made k (sends + 1) ≡ made k sends + is_for k (some sends)
made-suc k sends = ground arith

made_one : (k sends : ℕ) → k < sends → made k sends ≡ 1
made_one k sends h = rw (lt→ltb k sends h)

-- Send number k has one of: a result, the current promise, a thread that waits; while the mutex is
-- free the current promise is kept or is nobody's.
pub record Accounts (k : ℕ) (s : DefaultConnection) : Type 0 where
  pub settled : s.mutex_locked ≡ false → unkept k s.current_promise ≡ 0
  each : answers k s.results + unkept k s.current_promise + waits k s.waiting ≡ made k s.sends

construct-Accounts : (k : ℕ) → Accounts k construct
construct-Accounts k = record { settled = λ h. refl; each = ground arith }

queued-Accounts :
    (k : ℕ) (bytes : Bytes) (s : DefaultConnection) → Accounts k s → Accounts k (queued s bytes)
queued-Accounts k bytes s a = record {
  settled = a.settled;
  each =
      omega (arith, a.each, made-suc k s.sends, waits-append k s.waiting ((s.sends, bytes) ∷ []));
}

let_go-Accounts :
    (k : ℕ) (r : Result Receivable) (s : DefaultConnection)
    → s.current_promise.satisfied ≡ false
    → Accounts k s
    → Accounts k (let_go (kept_with s r))
let_go-Accounts k r s unkept_now a = record {
  settled = λ h. refl;
  each =
      let e : unkept k s.current_promise ≡ is_for k s.current_promise.number = rw unkept_now in
      omega (arith, a.each, e, answers-append k s.results ((s.current_promise.number, r) ∷ []));
}

ran-Accounts :
    (k n : ℕ) (bytes : Bytes) (before after : List (ℕ × Bytes)) (s : DefaultConnection)
    → s.mutex_locked ≡ false
    → s.waiting ≡ before ++ (n, bytes) ∷ after
    → Accounts k s
    → Accounts k (serialized_send_message n bytes (record s { waiting = before ++ after }))
unfolding serialized_send_message
ran-Accounts k n bytes before after s free q a = record {
  settled = λ h. absurd (cc);
  each = omega (
    arith,
    a.each,
    a.settled free,
    ap (waits k) q,
    waits-append k before ((n, bytes) ∷ after),
    waits-append k before after,
  );
}

module _ (P : Platform) where
  Received-Accounts :
      (k : ℕ) (s s' : DefaultConnection)
      → s.current_promise.satisfied ≡ false
      → Received s s'
      → Accounts k s
      → Accounts k s'
  Received-Accounts k s s' unkept_now (begins r e) a =
      subst (Accounts k) (sym e) (record { settled = a.settled; each = a.each })
  Received-Accounts k s s' unkept_now (ends r e) a = subst (Accounts k) (sym e) (
      let_go-Accounts k _ (record s { current_receivable = none }) unkept_now
        (record { settled = a.settled; each = a.each }))

  Step-Accounts :
      (k : ℕ) (s s' : DefaultConnection)
      → Reachable P s
      → Step P s s'
      → Accounts k s
      → Accounts k s'
  unfolding write_succeeded
  Step-Accounts k s s' r (asks d n e) a =
      let q = sent d n s s' e in subst (Accounts k) (sym q.1) (queued-Accounts k q.0 s a)
  Step-Accounts k s s' r (runs before after n bytes free q e) a =
      subst (Accounts k) (sym e) (ran-Accounts k n bytes before after s free q a)
  Step-Accounts k s s' r (has_read before after n bytes q e) a =
      let h = held P s before after _ (serialized_lem P s r) q in
      let u = record s { calls = before ++ after } in
      Received-Accounts k u s' h.unkept (received P u s' bytes h.unkept e)
        (record { settled = a.settled; each = a.each })
  Step-Accounts k s s' r (has_written before after bytes q e) a =
      subst (Accounts k) (sym e) (record { settled = a.settled; each = a.each })
  Step-Accounts k s s' r (has_failed before after call message q e) a =
      let h = held P s before after _ (serialized_lem P s r) q in
      let u = record s { calls = before ++ after } in
      subst (Accounts k) (sym (same_state e (failed-by u message h.unkept))) (
        let_go-Accounts k _ (record u { current_receivable = none }) h.unkept
          (record { settled = a.settled; each = a.each }))

  pub reached-Accounts : (k : ℕ) (s : DefaultConnection) → Reachable P s → Accounts k s
  reached-Accounts k s started = construct-Accounts k
  reached-Accounts k s (stepped u v r step) = Step-Accounts k u v r step (reached-Accounts k u r)

break_promise-answers :
    (k : ℕ) (p : Promise) (s : DefaultConnection)
    → answers k (break_promise p s).results ≡ answers k s.results + unkept k p
unfolding break_promise
break_promise-answers k p s = by_kept p.satisfied refl
  where
    by_kept :
        (b : Bool)
        → p.satisfied ≡ b
        → answers k
            (if b
              then s
              else record s { results = s.results ++ (p.number, broken_promise) ∷ [] }).results
          ≡ answers k s.results + (if b then 0 else is_for k p.number)
    by_kept true e = omega arith
    by_kept false e = omega (arith, answers-append k s.results ((p.number, broken_promise) ∷ []))

-- While the threads are joined: the same account, of the threads that are left.
record IsLeft (k total : ℕ) (threads : List (ℕ × Bytes)) (s : DefaultConnection) : Type 0 where
  pub settled : s.mutex_locked ≡ false → unkept k s.current_promise ≡ 0
  each : answers k s.results + unkept k s.current_promise + waits k threads ≡ total

end_thread-IsLeft :
    (b : Bool) (k total : ℕ) (t : ℕ × Bytes) (threads : List (ℕ × Bytes)) (s u : DefaultConnection)
    → end_thread b t.0 s ≡ some u
    → IsLeft k total (t ∷ threads) s
    → IsLeft k total threads u
unfolding end_thread break_promise
end_thread-IsLeft false k total t threads s u e l =
    subst (IsLeft k total threads) (Option-same e refl) (record {
      settled = l.settled;
      each = omega (arith, l.each, answers-append k s.results ((some t.0, broken_promise) ∷ []));
    })
end_thread-IsLeft true k total t threads s u e l = elim (Bool-cases s.mutex_locked) [
  | inl locked ↦ let q : end_thread true t.0 s ≡ none = rw locked in absurd (cc)
  | inr free ↦
      let v = record s { mutex_locked = true; current_promise = new_promise t.0 } in
      let q : end_thread true t.0 s ≡ some v = rw free in
      subst (IsLeft k total threads) (Option-same e q)
        (record { settled = λ h. absurd (cc); each = omega (arith, l.each, l.settled free) })
]

join_threads-IsLeft :
    (had_tested : ℕ → Bool) (k total : ℕ) (threads : List (ℕ × Bytes)) (s u : DefaultConnection)
    → join_threads had_tested threads (some s) ≡ some u
    → IsLeft k total threads s
    → IsLeft k total [] u
unfolding join_threads
join_threads-IsLeft had_tested k total [] s u e l = subst (IsLeft k total []) (Option-same e refl) l
join_threads-IsLeft had_tested k total (t ∷ threads) s u e l =
    elim (Option-cases (end_thread (had_tested t.0) t.0 s)) [
      | inl q ↦
          let bad : none ≡ some u = sym (ap (join_threads had_tested threads) q) ∙ e in absurd (cc)
      | inr (v, q) ↦
          join_threads-IsLeft had_tested k total threads v u
            (sym (ap (join_threads had_tested threads) q) ∙ e)
            (end_thread-IsLeft (had_tested t.0) k total t threads s v q l)
    ]

-- In every reachable state, whichever of the waiting threads had tested the socket: if the destructor
-- returns, the future of each send so far has got exactly one result, an answer, the error of a failed
-- call or that of a broken promise.
pub destroy-answers :
    (P : Platform) (had_tested : ℕ → Bool) (s s' : DefaultConnection) (k : ℕ)
    → Reachable P s
    → destroy had_tested s ≡ some s'
    → k < s.sends
    → answers k s'.results ≡ 1
unfolding destroy drop_promise
destroy-answers P had_tested s s' k r e made_before =
    elim (Option-cases (join_threads had_tested s.waiting (some (record s { calls = [] })))) [
      | inl q ↦ let bad : none ≡ some s' = sym (ap drop_promise q) ∙ e in absurd (cc)
      | inr (u, q) ↦
          let a = reached-Accounts P k s r in
          let l =
            join_threads-IsLeft had_tested k (made k s.sends) s.waiting (record s { calls = [] }) u
              q (record { settled = a.settled; each = a.each }) in
          let ended = record u { waiting = [] } in
          let same = Option-same e (ap drop_promise q) in
          ap (λ (t : DefaultConnection). answers k t.results) (sym same)
          ∙ omega (
            arith,
            l.each,
            break_promise-answers k u.current_promise ended,
            made_one k s.sends made_before,
          )
    ]
