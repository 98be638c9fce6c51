-- ===== src/Daemon/Server.antt =====
-- logsvc_daemon_main/main.cpp: the daemon as a whole, with any number of connections. The handlers of
-- the io_service run one after the other, on what all sessions share.
pub mod Kept
pub mod Consistent
pub mod Lasting
pub mod Owned
pub mod Owners
pub mod Lost
use logsvc.Common.{ℕ, zero, suc, ◌≡◌, Option, none, some, List, [], ◌∷◌, ◌++◌, ◌==◌, if◌then◌else◌}
use logsvc.Common.Map.{Map, find, insert, assign, erase, nat_order}
use logsvc.Common.Text.{Bytes}
use logsvc.Daemon.RealSession as RealSession
use logsvc.Daemon.RealSession.{RealSession, State, executor}
use logsvc.Daemon.SessionFactory as SessionFactory
use logsvc.Daemon.SessionInitiator as SessionInitiator
use logsvc.Daemon.SocketSession as SocketSession
use logsvc.Daemon.SocketSession.{SocketSession}
use logsvc.Daemon.SocketSession.Reachable as Connection
use logsvc.Daemon.World.{World}
use logsvc.Errors.{ok}
use logsvc.Exec.{Exec, modify, resume, ◌>>=◌}
use logsvc.Platform.{Platform}

-- The factory's shared part, the initiator, and the sessions that its live_sessions own.
pub record Server (P : Platform) : Type 0 where
  pub world : World P
  pub initiator : SessionInitiator.SessionInitiator
  pub sessions : Map ℕ (SocketSession RealSession)

-- The number of the initiator among the listeners of a session: it is the only one.
abbrev pub initiator_number : ℕ
initiator_number = 0

module _ (P : Platform) where
  -- DefaultSessionFactory, DefaultSocketAcceptor and SessionInitiator are constructed.
  unfoldable pub construct : P.Disk → Server P
  construct disk = record {
    world = SessionFactory.construct P disk;
    initiator = SessionInitiator.construct;
    sessions = [];
  }

  on_world : {A : Type 0} → Exec (World P) A → Exec (Server P) A
  on_world m st = let (r, w) = m st.world in (r, record st { world = w })

  unfoldable pub accept_requested : Exec (Server P) (Unit {0})
  unfolding on_world
  accept_requested = do
    session ← on_world (SessionFactory.create_session P)
    modify λ st. record st {
      sessions =
          insert nat_order st.initiator.created
            (SocketSession.add_socket_session_listener initiator_number
              (SocketSession.start_listen session))
            st.sessions;
      initiator = SessionInitiator.accept_requested st.initiator;
    }

  -- handle_accept(socket, listener, error)
  unfoldable pub handle_accept : Option Bytes → Exec (Server P) (Unit {0})
  handle_accept none = accept_requested
  handle_accept (some message) =
      modify λ st. record st { initiator = SessionInitiator.error_occurred message st.initiator }

  -- A session seen with what it shares, and put back.
  abbrev pub with_world : World P → SocketSession RealSession → SocketSession (State P)
  with_world w s = record {
    has_socket = s.has_socket;
    current_receivable = s.current_receivable;
    executor = record { session = s.executor; world = w };
    listeners = s.listeners;
    hears_socket = s.hears_socket;
    calls = s.calls;
  }

  abbrev pub without_world : SocketSession (State P) → SocketSession RealSession
  without_world s = record {
    has_socket = s.has_socket;
    current_receivable = s.current_receivable;
    executor = s.executor.session;
    listeners = s.listeners;
    hears_socket = s.hears_socket;
    calls = s.calls;
  }

  unfoldable pub put : ℕ → SocketSession (State P) → Server P → Server P
  put number s st = record st {
    world = s.executor.world;
    sessions = assign nat_order number (without_world s) st.sessions;
  }

  -- ~DefaultSocketSession and ~RealSession
  unfoldable pub destroy_session : SocketSession RealSession → World P → World P
  destroy_session s w = RealSession.destroy P (with_world w (SocketSession.destroy s)).executor

  -- session->remove_socket_session_listener(this); live_sessions.erase(iter)
  forget : ℕ → Option (SocketSession RealSession) → Server P → Server P
  forget number none st = st
  forget number (some s) st = record {
    world =
        destroy_session (SocketSession.remove_socket_session_listener initiator_number s) st.world;
    initiator = SessionInitiator.connection_lost number st.initiator;
    sessions = erase nat_order number st.sessions;
  }

  -- listener->connection_lost(this), for each listener
  notify : List ℕ → ℕ → Server P → Server P
  unfolding forget
  notify [] number st = st
  notify (l ∷ ls) number st =
      notify ls number
        (if l == initiator_number then forget number (find nat_order number st.sessions) st else st)

  lose : ℕ → Option (SocketSession RealSession) → Server P → Server P
  lose number none st = st
  lose number (some s) st = notify (SocketSession.connection_lost s) number st

  -- The socket of a session tells it that the connection is lost.
  unfoldable pub connection_lost : ℕ → Server P → Server P
  unfolding lose notify
  connection_lost number st = lose number (find nat_order number st.sessions) st

  destroy_sessions : Map ℕ (SocketSession RealSession) → World P → World P
  destroy_sessions [] w = w
  destroy_sessions ((number, s) ∷ sessions) w =
      destroy_sessions sessions
        (destroy_session (SocketSession.remove_socket_session_listener initiator_number s) w)

  -- The end of main: the initiator and the sessions that it owns are destroyed.
  unfoldable pub shut_down : Server P → Server P
  unfolding destroy_sessions
  shut_down st = record {
    world = destroy_sessions st.sessions st.world;
    initiator = SessionInitiator.destroy st.initiator;
    sessions = [];
  }

  -- What the io_service runs next: the completion of an accept, a completion on a session's socket
  -- whose handler returned, or the loss of a connection.
  pub data Step (st st' : Server P) : Type 0 where
    has_accepted :
        (error : Option Bytes) (n : ℕ)
        → st.initiator.accepting ≡ suc n
        → handle_accept error (record st { initiator = record st.initiator { accepting = n } })
          ≡ (ok tt, st')
        → Step st st'
    has_completed :
        (number : ℕ) (s : SocketSession RealSession) (s' : SocketSession (State P))
        → find nat_order number st.sessions ≡ some s
        → Connection.Step P (executor P) (with_world st.world s) s'
        → st' ≡ put number s' st
        → Step st st'
    has_lost : (number : ℕ) → st' ≡ connection_lost number st → Step st st'

  -- The states of the daemon after a number of steps.
  pub data Reachable : ℕ → Server P → Type 0 where
    started : (disk : P.Disk) → Reachable 0 (construct disk)
    stepped : (n : ℕ) (st st' : Server P) → Reachable n st → Step st st' → Reachable (suc n) st'
