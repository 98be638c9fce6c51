-- ===== src/Clients/HostConnectionFactory/Connects.antt =====
-- How create_session ends, and when it does not.
use logsvc.Common.{
  ◌+◌, ◌≡◌, refl, ap, Bool, true, false, inl, inr, Option, none, some, if◌then◌else◌, ltb, lt→ltb,
  arith, Option-cases,
}
use logsvc.Common.Text.{Bytes, codes}
use logsvc.Clients.DefaultConnection as DefaultConnection
use logsvc.Clients.HostConnectionFactory.{
  Network, IoServiceSingleton, instance_at_start, make_sure_it_runs, run_on, HostConnectionFactory,
  Session, connected, run_handler, finish, connect_to, create_session,
}
use logsvc.Errors.{Exception, Result, ok, throw, fault, unable_to_connect_error, Result-cases}
use logsvc.Network.Socket as Socket

-- The thread has not been started, or it still runs the io_service.
pub data IsAlive (s : IoServiceSingleton) : Type 0 where
  not_started : s.thread_joinable ≡ false → IsAlive s
  going : s.running ≡ true → IsAlive s

make_sure_it_runs_lem : (s : IoServiceSingleton) → IsAlive s → (make_sure_it_runs s).running ≡ true
unfolding make_sure_it_runs
make_sure_it_runs_lem s h = by_flag s.thread_joinable refl
  where
    by_flag :
        (j : Bool)
        → s.thread_joinable ≡ j
        → (if j then s else record s { thread_joinable = true; running = true }).running ≡ true
    by_flag false e = refl
    by_flag true e = elim h [ not_started n ↦ absurd (cc) | going g ↦ g ]

make_sure_it_runs-work : (s : IoServiceSingleton) → (make_sure_it_runs s).work ≡ s.work
unfolding make_sure_it_runs
make_sure_it_runs-work s = by_flag s.thread_joinable
  where
    by_flag :
        (j : Bool)
        → (if j then s else record s { thread_joinable = true; running = true }).work ≡ s.work
    by_flag false = refl
    by_flag true = refl

module _ (N : Network) where
  -- The ways in which create_session ends.
  pub data Connects (f : HostConnectionFactory) (s : IoServiceSingleton)
      (r : Option (Result Session) × IoServiceSingleton) : Type 0 where
    unresolved :
        (e : Exception)
        → N.resolve f.hostname_or_ip (codes "5607") ≡ throw e
        → r ≡ (some (throw e), s)
        → Connects f s r
    crashed :
        N.resolve f.hostname_or_ip (codes "5607") ≡ fault → r ≡ (some fault, s) → Connects f s r
    -- The thread goes on exactly if other sockets are kept alive.
    refused :
        (endpoints : N.Endpoints) (message : Bytes)
        → N.resolve f.hostname_or_ip (codes "5607") ≡ ok endpoints
        → N.connect endpoints ≡ some message
        → r.0 ≡ some (throw (unable_to_connect_error (some message)))
        → r.1.running ≡ ltb 0 s.work
        → r.1.work ≡ s.work
        → Connects f s r
    made :
        (endpoints : N.Endpoints) (session : Session)
        → N.resolve f.hostname_or_ip (codes "5607") ≡ ok endpoints
        → N.connect endpoints ≡ none
        → r.0 ≡ some (ok session)
        → session.socket.idle_work ≡ true
        → session.connection ≡ DefaultConnection.construct
        → r.1.running ≡ true
        → r.1.work ≡ s.work + 1
        → Connects f s r

  -- As long as the thread of the io_service has not been started or runs, create_session returns: with
  -- the exception of the resolver, an UnableToConnectError with the message of the error, or an idle
  -- connection whose socket is kept alive, which is the work that keeps the thread running.
  pub create_session_lem :
      (f : HostConnectionFactory) (s : IoServiceSingleton)
      → IsAlive s
      → Connects f s (create_session N f s)
  unfolding create_session connect_to run_handler finish connected run_on Socket.keep_alive
  create_session_lem f s h =
      let alive = make_sure_it_runs_lem s h in
      let same_work = make_sure_it_runs-work s in
      elim (Result-cases (N.resolve f.hostname_or_ip (codes "5607"))) [
        | inl (endpoints, e) ↦ elim (Option-cases (N.connect endpoints)) [
          | inl reached ↦
              made endpoints
                (record {
                  socket = Socket.keep_alive (Socket.keep_alive Socket.construct);
                  connection = DefaultConnection.construct;
                })
                e reached (rw (e, reached) (rw alive refl)) refl refl
                (rw (e, reached) (rw alive (lt→ltb 0 _ (omega arith))))
                (rw (e, reached) (rw alive (omega (arith, same_work))))
          | inr (message, failed) ↦
              refused endpoints message e failed (rw (e, failed) (rw alive refl))
                (rw (e, failed) (rw alive (ap (ltb 0) (omega (arith, same_work)))))
                (rw (e, failed) (rw alive (omega (arith, same_work))))
        ]
        | inr (inl (x, e)) ↦ unresolved x e (rw e)
        | inr (inr e) ↦ crashed e (rw e)
      ]

  -- When the first connection of a process fails, the io_service has no work and its thread ends, and as
  -- it stays joinable no other is started: every later create_session whose host is resolved never
  -- returns, whether or not the host can be reached.
  pub retry_hangs :
      (f g : HostConnectionFactory) (endpoints others : N.Endpoints) (message : Bytes)
      → N.resolve f.hostname_or_ip (codes "5607") ≡ ok endpoints
      → N.connect endpoints ≡ some message
      → N.resolve g.hostname_or_ip (codes "5607") ≡ ok others
      → ((create_session N f instance_at_start).0
          ≡ some (throw (unable_to_connect_error (some message))))
        × ((create_session N g (create_session N f instance_at_start).1).0 ≡ none)
  unfolding create_session connect_to run_handler finish connected run_on make_sure_it_runs
  retry_hangs f g endpoints others message e failed e' =
      (rw (e, failed) refl, rw (e, failed) (rw e' refl))
