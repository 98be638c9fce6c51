-- ===== src/Daemon/Server/Lost.antt =====
-- What the loss of one connection does to the files, and to the other sessions.
use logsvc.Common.{ℕ, ◌+◌, ◌<◌, ◌^◌, ◌≡◌, refl, ap, none, some, get_elem?, if◌then◌else◌, arith}
use logsvc.Common.Map.{find, find-erase, same, nat_order}
use logsvc.Common.Map.Total.{total, total-erase}
use logsvc.Daemon.RealSession.{RealSession}
use logsvc.Daemon.RealSession.Counted.{owners_of}
use logsvc.Daemon.RealSession.Sharing.{destroy-disk}
use logsvc.Daemon.Server.{Server, Reachable, connection_lost, lose, notify, forget, destroy_session}
use logsvc.Daemon.Server.Consistent.{state_of}
use logsvc.Daemon.Server.Lasting.{reached-IsConsistent}
use logsvc.Daemon.Server.Owned.{session_pointers, lost-AreCounted}
use logsvc.Daemon.Server.Owners.{reached-AreCounted}
use logsvc.Daemon.SessionInitiator.Live.{lost-live_sessions}
use logsvc.Daemon.SocketSession as SocketSession
use logsvc.Daemon.SocketSession.{SocketSession}
use logsvc.Platform.{Platform}

module _ (P : Platform) where
  forgotten :
      (n number : ℕ) (st : Server P) (s : SocketSession RealSession)
      → Reachable P n st
      → n + 2 < 2 ^ 32
      → find nat_order number st.sessions ≡ some s
      → connection_lost P number st ≡ forget P number (some s) st
  unfolding connection_lost lose notify forget destroy_session SocketSession.destroy
      SocketSession.remove_socket_session_listener SocketSession.connection_lost
  forgotten n number st s r room there =
      let own = (reached-IsConsistent P n st r room).served number s there in
      rw (there, own.hearing, own.listeners) (rw there refl)

  -- In every state of the daemon that fewer than 2 ^ 32 - 2 steps lead to, when the connection of a
  -- session is lost: each log file object loses as many owners as the session had open handles for it,
  -- and nothing is written; the session is among the sessions no more, neither with the initiator, and
  -- the other sessions stay as they are.
  pub forgotten_lem :
      (n number : ℕ) (st : Server P) (s : SocketSession RealSession)
      → Reachable P n st
      → n + 2 < 2 ^ 32
      → find nat_order number st.sessions ≡ some s
      → ((a : ℕ)
          → owners_of (get_elem? (connection_lost P number st).world.objects a)
              + session_pointers a s
            ≡ owners_of (get_elem? st.world.objects a))
        × ((connection_lost P number st).world.disk ≡ st.world.disk)
        × ((j : ℕ)
            → find nat_order j (connection_lost P number st).sessions
              ≡ (if same nat_order number j then none else find nat_order j st.sessions))
        × ((j : ℕ)
            → find nat_order j (connection_lost P number st).initiator.live_sessions ≡ (
                if same nat_order number j
                then none
                else find nat_order j st.initiator.live_sessions))
  unfolding forget destroy_session SocketSession.destroy
      SocketSession.remove_socket_session_listener
  forgotten_lem n number st s r room there =
      let before = reached-AreCounted P n st r room in
      let after = lost-AreCounted P number st before in
      let e = forgotten n number st s r room there in
      let same_sessions = ap (λ (t : Server P). t.sessions) e in
      (
        λ a. omega (
          arith,
          before.owned a,
          after.owned a,
          ap (λ m. total (session_pointers a) m) same_sessions,
          total-erase nat_order (session_pointers a) number s st.sessions before.unique there,
        ),
        rw e (destroy-disk P (state_of P st.world s)),
        rw e (λ j. find-erase nat_order number j st.sessions),
        rw e (λ j. lost-live_sessions st.initiator number j),
      )
