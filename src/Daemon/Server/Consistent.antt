-- ===== src/Daemon/Server/Consistent.antt =====
-- Any number of connections, whatever they do and in whatever order, leave each session and what they
-- share in order.
use logsvc.Common.{
  ℕ, suc, ◌+◌, ◌%◌, ◌<◌, ◌≤◌, ◌^◌, ◌≡◌, refl, ◌∙◌, subst, true, inl, inr, none, some, [], ◌∷◌,
  arith, Bool-cases,
}
use logsvc.Common.Map.{find, insert, find-insert, find-assign, same, same_iff, nat_order}
use logsvc.Daemon.Collection.Growth.{IsCollected, Grows, IsCollected-Grows}
use logsvc.Daemon.RealSession as RealSession
use logsvc.Daemon.RealSession.{RealSession, State, executor}
use logsvc.Daemon.RealSession.Endings.{begun, begun-IsValid}
use logsvc.Daemon.RealSession.Invariant.{IsValid, IsValid-Grows}
use logsvc.Daemon.Server.{
  Server, construct, accept_requested, on_world, with_world, without_world, put, initiator_number,
}
use logsvc.Daemon.Server.Kept.{Step-Kept}
use logsvc.Daemon.SessionFactory as SessionFactory
use logsvc.Daemon.SessionInitiator as SessionInitiator
use logsvc.Daemon.SessionInitiator.Live.{
  IsWatching, construct-IsWatching, accepted-IsWatching, no_new,
}
use logsvc.Daemon.SocketSession as SocketSession
use logsvc.Daemon.SocketSession.{SocketSession}
use logsvc.Daemon.SocketSession.Moves.{Step-Moves}
use logsvc.Daemon.SocketSession.Reachable as Connection
use logsvc.Daemon.World.{World, generate_client_handle}
use logsvc.Errors.{ok}
use logsvc.Platform.{Platform}

module _ (P : Platform) where
  abbrev pub state_of : World P → SocketSession RealSession → State P
  state_of w s = record { session = s.executor; world = w }

  -- A session of the daemon after at most `n` steps, in a world.
  pub record IsServed (n : ℕ) (w : World P) (s : SocketSession RealSession) : Type 0 where
    pub valid : IsValid P (state_of w s)
    pub counted : s.executor.file_handle_counter < n + 2
    -- The initiator is its one listener, and it hears of its socket.
    pub listeners : s.listeners ≡ (initiator_number, tt) ∷ []
    pub hearing : s.hears_socket ≡ true

  pub record IsConsistent (n : ℕ) (st : Server P) : Type 0 where
    pub shared : IsCollected P st.world
    pub served :
        (number : ℕ) (s : SocketSession RealSession)
        → find nat_order number st.sessions ≡ some s
        → IsServed n st.world s
    pub watching : IsWatching st.initiator
    -- The sessions are those that the initiator keeps.
    pub owned :
        (number : ℕ)
        → find nat_order number st.sessions ≡ none
        → find nat_order number st.initiator.live_sessions ≡ none
    pub kept :
        (number : ℕ)
        → find nat_order number st.initiator.live_sessions ≡ none
        → find nat_order number st.sessions ≡ none

  pub construct-IsConsistent : (disk : P.Disk) → IsConsistent 0 (construct P disk)
  unfolding construct SessionFactory.construct find
  construct-IsConsistent disk = record {
    shared = record { collected = λ p f h. cc };
    served = λ number s h. cc;
    watching = construct-IsWatching;
    owned = λ number h. refl;
    kept = λ number h. refl;
  }

  -- A session stays served while others go on.
  pub IsServed-Grows :
      (n m : ℕ) (w w' : World P) (s : SocketSession RealSession)
      → n ≤ m
      → Grows P w w'
      → IsServed n w s
      → IsServed m w' s
  IsServed-Grows n m w w' s le g h =
      let counted = h.counted in
      record {
        valid = IsValid-Grows P s.executor w w' g h.valid;
        counted = omega arith;
        listeners = h.listeners;
        hearing = h.hearing;
      }

  -- A completion on the connection of session `number`.
  pub completed-IsConsistent :
      (n : ℕ) (st : Server P) (number : ℕ) (s : SocketSession RealSession)
      (s' : SocketSession (State P))
      → n + 2 < 2 ^ 32
      → IsConsistent n st
      → find nat_order number st.sessions ≡ some s
      → Connection.Step P (executor P) (with_world P st.world s) s'
      → IsConsistent (suc n) (put P number s' st)
  unfolding put
  completed-IsConsistent n st number s s' room c there step =
      let own = c.served number s there in
      let counted = own.counted in
      let k =
        Step-Kept P (with_world P st.world s) s' (record { valid = own.valid; shared = c.shared })
          (omega arith) step in
      let m = Step-Moves P (executor P) (with_world P st.world s) s' step in
      let k_counted = k.counted in
      let found = λ (j : ℕ). find-assign nat_order number j (without_world P s') st.sessions in
      let mine : IsServed (suc n) s'.executor.world (without_world P s') = record {
        valid = k.sound.valid;
        counted = omega arith;
        listeners = m.same_listeners ∙ own.listeners;
        hearing = m.same_hearing ∙ own.hearing;
      } in
      record {
        shared = k.sound.shared;
        served = λ j t h. elim (Bool-cases (same nat_order number j)) [
          | inl hit ↦
              let e : without_world P s' ≡ t = ground (arith, found j) in
              subst (IsServed (suc n) s'.executor.world) e mine
          | inr miss ↦
              IsServed-Grows n (suc n) st.world s'.executor.world t (omega arith) k.grows
                (c.served j t (ground (arith, found j)))
        ];
        watching = c.watching;
        owned = λ j h. c.owned j (ground (arith, found j, same_iff number j, there));
        kept = λ j h. ground (arith, found j, same_iff number j, there, c.kept j h);
      }

  -- The state after a connection has been accepted.
  abbrev pub joined : World P → SocketSession RealSession
  joined w =
      SocketSession.add_socket_session_listener initiator_number
        (SocketSession.start_listen (SocketSession.construct (begun P w)))

  abbrev counted_world : World P → World P
  counted_world w = record w { handle_counter = (w.handle_counter + 1) % 2 ^ 32 }

  abbrev pub accepted : Server P → Server P
  accepted st = record {
    world = counted_world st.world;
    initiator = SessionInitiator.accept_requested st.initiator;
    sessions = insert nat_order st.initiator.created (joined st.world) st.sessions;
  }

  pub accept_requested-by : (st : Server P) → accept_requested P st ≡ (ok tt, accepted st)
  unfolding accept_requested on_world SessionFactory.create_session RealSession.construct
      generate_client_handle
  accept_requested-by st = refl

  joined-IsServed : (n : ℕ) (w w' : World P) → IsServed (suc n) w' (joined w)
  unfolding SocketSession.add_socket_session_listener SocketSession.start_listen find insert
  joined-IsServed n w w' = record {
    valid = begun-IsValid P w w';
    counted = omega arith;
    listeners = refl;
    hearing = refl;
  }

  pub accepted-IsConsistent :
      (n : ℕ) (st : Server P)
      → IsConsistent n st
      → IsConsistent
          (suc n)
          (accepted (record st { initiator = record st.initiator { accepting = 0 } }))
  unfolding SessionInitiator.accept_requested
  accepted-IsConsistent n st c =
      let i = st.initiator in
      let new = no_new i c.watching in
      let unused = c.kept i.created new in
      let g : Grows P st.world (counted_world st.world) = record {
        keeps = λ a o h. (o, h, refl);
      } in
      let found =
        λ (j : ℕ). find-insert nat_order i.created j (joined st.world) st.sessions unused in
      let live = λ (j : ℕ). find-insert nat_order i.created j tt i.live_sessions new in
      record {
        shared = IsCollected-Grows P st.world (counted_world st.world) g refl c.shared;
        served = λ j t h. elim (Bool-cases (same nat_order i.created j)) [
          | inl hit ↦
              let e : joined st.world ≡ t = ground (arith, found j) in
              subst (IsServed (suc n) (counted_world st.world)) e
                (joined-IsServed n st.world (counted_world st.world))
          | inr miss ↦
              IsServed-Grows n (suc n) st.world (counted_world st.world) t (omega arith) g
                (c.served j t (ground (arith, found j)))
        ];
        watching = accepted-IsWatching i c.watching;
        owned = λ j h. ground (arith, found j, live j, c.owned j);
        kept = λ j h. ground (arith, found j, live j, c.kept j);
      }
