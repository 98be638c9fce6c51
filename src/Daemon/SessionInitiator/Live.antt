-- ===== src/Daemon/SessionInitiator/Live.antt =====
-- The initiator never stops accepting, and keeps exactly the sessions that it listens to.
use logsvc.Common.{
  ℕ, ◌<◌, ◌≡◌, ◌≢◌, refl, ◌∙◌, ap, sym, subst, Bool, true, false, ◌⊎◌, inl, inr, Option, none, some,
  List, [], ◌∷◌, if◌then◌else◌, arith, Bool-cases, Option-cases,
}
use logsvc.Common.Map.{find, erase, find-insert, find-erase, find-same, same, same_iff, nat_order}
use logsvc.Daemon.SessionInitiator.{
  SessionInitiator, construct, accept_requested, error_occurred, connection_lost, drop_session,
  handle_accept, Event, accepts, loses, happen, happens,
}

-- One accept is outstanding, the live sessions are those that are listened to, and are among those
-- that have been created.
pub record IsWatching (s : SessionInitiator) : Type 0 where
  pub accepting_one : s.accepting ≡ 1
  pub watched : (n : ℕ) → find nat_order n s.live_sessions ≡ find nat_order n s.listened_to
  pub numbered : (n : ℕ) → find nat_order n s.live_sessions ≢ none → n < s.created

pub no_new : (s : SessionInitiator) → IsWatching s → find nat_order s.created s.live_sessions ≡ none
no_new s w = elim (Option-cases (find nat_order s.created s.live_sessions)) [
  | inl e ↦ e
  | inr (u, e) ↦ let below = w.numbered s.created (λ is_none. cc) in absurd (omega arith)
]

pub construct-IsWatching : IsWatching construct
unfolding find
construct-IsWatching = record {
  accepting_one = refl;
  watched = λ n. refl;
  numbered = λ n h. absurd (h refl);
}

pub accepted-IsWatching :
    (s : SessionInitiator)
    → IsWatching s
    → IsWatching (accept_requested (record s { accepting = 0 }))
unfolding accept_requested
accepted-IsWatching s w =
    let new = no_new s w in
    let new' = sym (w.watched s.created) ∙ new in
    let live = λ (n : ℕ). find-insert nat_order s.created n tt s.live_sessions new in
    let heard = λ (n : ℕ). find-insert nat_order s.created n tt s.listened_to new' in
    record {
      accepting_one = refl;
      watched = λ n.
          live n
          ∙ ap (λ (o : Option (Unit {0})). if same nat_order s.created n then some tt else o)
              (w.watched n)
          ∙ sym (heard n);
      numbered = λ n h. ground (arith, live n, same_iff s.created n, w.numbered n);
    }

pub lost-IsWatching :
    (s : SessionInitiator) (k : ℕ) → IsWatching s → IsWatching (connection_lost k s)
unfolding connection_lost drop_session
lost-IsWatching s k w = by_found (find nat_order k s.live_sessions) refl
  where
    heard :
        (n : ℕ)
        → find nat_order n (erase nat_order k s.listened_to)
          ≡ (if same nat_order k n then none else find nat_order n s.listened_to)
    heard n = find-erase nat_order k n s.listened_to

    live :
        (n : ℕ)
        → find nat_order n (erase nat_order k s.live_sessions)
          ≡ (if same nat_order k n then none else find nat_order n s.live_sessions)
    live n = find-erase nat_order k n s.live_sessions

    by_found :
        (o : Option (Unit {0}))
        → find nat_order k s.live_sessions ≡ o
        → IsWatching (drop_session o k (record s { listened_to = erase nat_order k s.listened_to }))
    by_found none e = record {
      accepting_one = w.accepting_one;
      watched = λ n. unknown n (Bool-cases (same nat_order k n));
      numbered = w.numbered;
    }
      where
        unknown :
            (n : ℕ)
            → (same nat_order k n ≡ true) ⊎ (same nat_order k n ≡ false)
            → find nat_order n s.live_sessions ≡ find nat_order n (erase nat_order k s.listened_to)
        unknown n (inl hit) =
            let is : k ≡ n = (same_iff k n).0 hit in
            subst (λ (m : ℕ). find nat_order m s.live_sessions ≡ none) is e
            ∙ sym (
                heard n ∙ ap (λ (b : Bool). if b then none else find nat_order n s.listened_to) hit)
        unknown n (inr miss) =
            w.watched n
            ∙ sym (
                heard n
                ∙ ap (λ (b : Bool). if b then none else find nat_order n s.listened_to) miss)
    by_found (some u) e = record {
      accepting_one = w.accepting_one;
      watched = λ n.
          live n
          ∙ ap (λ (o : Option (Unit {0})). if same nat_order k n then none else o) (w.watched n)
          ∙ sym (heard n);
      numbered = λ n h. ground (arith, live n, w.numbered n);
    }

-- What is live after a connection has been lost.
pub lost-live_sessions :
    (s : SessionInitiator) (k n : ℕ)
    → find nat_order n (connection_lost k s).live_sessions
      ≡ (if same nat_order k n then none else find nat_order n s.live_sessions)
unfolding connection_lost drop_session
lost-live_sessions s k n = by_found (find nat_order k s.live_sessions) refl
  where
    by_found :
        (o : Option (Unit {0}))
        → find nat_order k s.live_sessions ≡ o
        → find nat_order n
            (drop_session o k
              (record s { listened_to = erase nat_order k s.listened_to })).live_sessions
          ≡ (if same nat_order k n then none else find nat_order n s.live_sessions)
    by_found none e = ground (arith, find-same nat_order k n s.live_sessions, e)
    by_found (some u) e = find-erase nat_order k n s.live_sessions

happen-IsWatching : (s : SessionInitiator) (e : Event) → IsWatching s → IsWatching (happen e s)
unfolding happen handle_accept error_occurred
happen-IsWatching s (loses k) w = lost-IsWatching s k w
happen-IsWatching s (accepts none) w = rw w.accepting_one (accepted-IsWatching s w)
happen-IsWatching s (accepts (some message)) w =
    rw w.accepting_one (record { accepting_one = refl; watched = w.watched; numbered = w.numbered })

run-IsWatching : (es : List Event) (s : SessionInitiator) → IsWatching s → IsWatching (happens es s)
unfolding happens
run-IsWatching [] s w = w
run-IsWatching (e ∷ es) s w = run-IsWatching es (happen e s) (happen-IsWatching s e w)

-- From its construction on, through accepts that succeed or fail and connections that are lost, in any
-- order: exactly one accept is outstanding, the live sessions are exactly those that the initiator
-- listens to, and a session that is live has been created.
pub happens-IsWatching : (es : List Event) → IsWatching (happens es construct)
happens-IsWatching es = run-IsWatching es construct construct-IsWatching

-- A session that was created and is not live.
IsGone : ℕ → SessionInitiator → Type 0
IsGone k s = (find nat_order k s.live_sessions ≡ none) × (k < s.created)

lost-IsGone :
    (s : SessionInitiator) (k n : ℕ)
    → n < s.created
    → (k ≡ n) ⊎ IsGone n s
    → IsGone n (connection_lost k s)
unfolding IsGone connection_lost drop_session
lost-IsGone s k n old h = by_found (find nat_order k s.live_sessions) refl
  where
    erased :
        find nat_order n (erase nat_order k s.live_sessions)
        ≡ (if same nat_order k n then none else find nat_order n s.live_sessions)
    erased = find-erase nat_order k n s.live_sessions

    still :
        find nat_order k s.live_sessions ≡ none
        → (k ≡ n) ⊎ ((find nat_order n s.live_sessions ≡ none) × (n < s.created))
        → find nat_order n s.live_sessions ≡ none
    still e (inl is) = subst (λ (m : ℕ). find nat_order m s.live_sessions ≡ none) is e
    still e (inr gone) = gone.0

    cut :
        (k ≡ n) ⊎ ((find nat_order n s.live_sessions ≡ none) × (n < s.created))
        → find nat_order n (erase nat_order k s.live_sessions) ≡ none
    cut (inl is) = ground (arith, erased, same_iff k n)
    cut (inr gone) = ground (arith, erased, gone.0)

    by_found :
        (o : Option (Unit {0}))
        → find nat_order k s.live_sessions ≡ o
        → IsGone n (drop_session o k (record s { listened_to = erase nat_order k s.listened_to }))
    by_found none e = (still e h, old)
    by_found (some u) e = (cut h, old)

happen-IsGone :
    (s : SessionInitiator) (e : Event) (n : ℕ) → IsWatching s → IsGone n s → IsGone n (happen e s)
unfolding IsGone happen handle_accept error_occurred accept_requested
happen-IsGone s (loses k) n w gone = lost-IsGone s k n gone.1 (inr gone)
happen-IsGone s (accepts none) n w gone = rw w.accepting_one (
    let found = find-insert nat_order s.created n tt s.live_sessions (no_new s w) in
    (ground (arith, found, same_iff s.created n, gone.0, gone.1), omega (arith, gone.1)))
happen-IsGone s (accepts (some message)) n w gone = rw w.accepting_one gone

run-IsGone :
    (es : List Event) (s : SessionInitiator) (n : ℕ)
    → IsWatching s
    → IsGone n s
    → IsGone n (happens es s)
unfolding happens
run-IsGone [] s n w gone = gone
run-IsGone (e ∷ es) s n w gone =
    run-IsGone es (happen e s) n (happen-IsWatching s e w) (happen-IsGone s e n w gone)

-- After any events, when a session that has been created loses its connection, it is not live, and
-- never again, whatever happens after that: sessions do not return and numbers are not given twice.
pub connection_lost_lem :
    (before after : List Event) (n : ℕ)
    → n < (happens before construct).created
    → find nat_order n (happens after (connection_lost n (happens before construct))).live_sessions
      ≡ none
unfolding IsGone
connection_lost_lem before after n old =
    let s = happens before construct in
    let w = happens-IsWatching before in
    (run-IsGone after (connection_lost n s) n (lost-IsWatching s n w)
      (lost-IsGone s n n old (inl refl))).0
