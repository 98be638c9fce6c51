-- ===== src/Daemon/SessionInitiator.antt =====
-- logsvc_daemon/SessionInitiator.cpp, with handle_accept of network/DefaultSocketAcceptor.cpp: a session
-- for each connection that is accepted, until it is lost. Sessions are numbers, in the order in which
-- they are created; the initiator listens to each of them.
pub mod Live
use logsvc.Common.{
  ℕ, zero, suc, ◌+◌, ◌<◌, ◌≡◌, refl, ◌∙◌, ap, sym, Bool, true, false, ◌⊎◌, inl, inr, Option, none,
  some, List, [], ◌∷◌, ◌++◌, ◌==◌, if◌then◌else◌, arith, Bool-cases,
}
use logsvc.Common.Map.{Map, find, insert, erase, find-insert, find-erase, same, same_iff, nat_order}
use logsvc.Common.Text.{Bytes}

-- The calls of async_accept that have not completed. It listens on port 5607 of its io_service.
abbrev pub DefaultSocketAcceptor : Type 0
DefaultSocketAcceptor = ℕ

-- DefaultSocketAcceptor()
abbrev pub new_acceptor : DefaultSocketAcceptor
new_acceptor = 0

pub record SessionInitiator : Type 0 where
  -- the sessions that factory.create_session has made so far
  pub created : ℕ
  pub live_sessions : Map ℕ (Unit {0})
  -- the sessions that the initiator is a listener of
  pub listened_to : Map ℕ (Unit {0})
  pub accepting : DefaultSocketAcceptor
  pub errors : List Bytes

abbrev async_accept : SessionInitiator → SessionInitiator
async_accept s = record s { accepting = s.accepting + 1 }

-- SessionInitiator(factory, acceptor)
abbrev pub construct : SessionInitiator
construct = async_accept (record {
  created = 0;
  live_sessions = [];
  listened_to = [];
  accepting = new_acceptor;
  errors = [];
})

unfoldable pub accept_requested : SessionInitiator → SessionInitiator
accept_requested s =
    let session = s.created in
    async_accept (record s {
      created = session + 1;
      listened_to = insert nat_order session tt s.listened_to;
      live_sessions = insert nat_order session tt s.live_sessions;
    })

unfoldable pub error_occurred : Bytes → SessionInitiator → SessionInitiator
error_occurred message s = async_accept (record s { errors = s.errors ++ message ∷ [] })

drop_session : Option (Unit {0}) → ℕ → SessionInitiator → SessionInitiator
drop_session none session s = s
drop_session (some u) session s = record s {
  live_sessions = erase nat_order session s.live_sessions;
}

unfoldable pub connection_lost : ℕ → SessionInitiator → SessionInitiator
unfolding drop_session
connection_lost session s =
    let t = record s { listened_to = erase nat_order session s.listened_to } in
    drop_session (find nat_order session t.live_sessions) session t

forget_each : Map ℕ (Unit {0}) → Map ℕ (Unit {0}) → Map ℕ (Unit {0})
forget_each [] listened_to = listened_to
forget_each ((session, u) ∷ live) listened_to =
    forget_each live (erase nat_order session listened_to)

-- ~SessionInitiator(): (*iter)->remove_socket_session_listener(this), and live_sessions is destroyed
unfoldable pub destroy : SessionInitiator → SessionInitiator
unfolding forget_each
destroy s = record s { live_sessions = []; listened_to = forget_each s.live_sessions s.listened_to }

-- handle_accept(socket, listener, error), when one async_accept has completed
unfoldable pub handle_accept : Option Bytes → SessionInitiator → SessionInitiator
unfolding accept_requested error_occurred
handle_accept error s = elim error [
  | none ↦ accept_requested s
  | some message ↦ error_occurred message s
]

-- What happens to an initiator, in any order.
pub data Event : Type 0 where
  accepts : Option Bytes → Event
  loses : ℕ → Event

-- An event, the completion of an async_accept or a session's notification.
unfoldable pub happen : Event → SessionInitiator → SessionInitiator
happen (accepts error) s = elim s.accepting [
  | zero ↦ s
  | suc n ↦ handle_accept error (record s { accepting = n })
]
happen (loses session) s = connection_lost session s

unfoldable pub happens : List Event → SessionInitiator → SessionInitiator
happens [] s = s
happens (e ∷ es) s = happens es (happen e s)
