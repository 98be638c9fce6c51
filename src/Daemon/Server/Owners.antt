-- ===== src/Daemon/Server/Owners.antt =====
-- The owners of the log file objects, in the whole daemon.
use logsvc.Common.{
  ℕ, ◌+◌, ◌<◌, ◌^◌, ◌≡◌, ◌∙◌, ap, sym, subst, none, some, [], ◌∷◌, get_elem?, arith,
}
use logsvc.Common.Map.{Map}
use logsvc.Common.Map.Total.{total}
use logsvc.Daemon.RealSession.{RealSession, destroy}
use logsvc.Daemon.RealSession.Counted.{owners_of, destroy-owners}
use logsvc.Daemon.Server.{
  Server, Step, Reachable, has_accepted, has_completed, has_lost, started, stepped, handle_accept,
  destroy_session, destroy_sessions, shut_down,
}
use logsvc.Daemon.Server.Consistent.{IsConsistent, accepted, accept_requested-by, state_of}
use logsvc.Daemon.Server.Lasting.{reached-IsConsistent, without}
use logsvc.Daemon.SessionInitiator.Live.{no_new}
use logsvc.Daemon.SocketSession as SocketSession
use logsvc.Daemon.SocketSession.{SocketSession}
use logsvc.Daemon.World.{World, LogFile}
use logsvc.Errors.{Result}
use logsvc.Platform.{Platform}
use logsvc.Daemon.Server.Owned.{
  all_pointers, AreCounted, construct-AreCounted, completed-AreCounted, lost-AreCounted,
  accepted-AreCounted,
}

module _ (P : Platform) where
  Step-AreCounted :
      (n : ℕ) (st st' : Server P)
      → IsConsistent P n st
      → AreCounted P st
      → Step P st st'
      → AreCounted P st'
  unfolding handle_accept
  Step-AreCounted n st st' k c (has_accepted none m q e) =
      let after : accepted P (without P m st) ≡ st' =
        ap (λ (t : Result (Unit {0}) × Server P). t.1)
          (sym (accept_requested-by P (without P m st)) ∙ e) in
      subst (AreCounted P) after (
        accepted-AreCounted P (without P m st)
          (k.kept st.initiator.created (no_new st.initiator k.watching))
          (record { unique = c.unique; unique_files = c.unique_files; owned = c.owned }))
  Step-AreCounted n st st' k c (has_accepted (some message) m q e) =
      subst (AreCounted P) (ap (λ (t : Result (Unit {0}) × Server P). t.1) e)
        (record { unique = c.unique; unique_files = c.unique_files; owned = c.owned })
  Step-AreCounted n st st' k c (has_completed number s s' there step e) =
      subst (AreCounted P) (sym e) (completed-AreCounted P number st s s' c there step)
  Step-AreCounted n st st' k c (has_lost number e) =
      subst (AreCounted P) (sym e) (lost-AreCounted P number st c)

  pub reached-AreCounted :
      (n : ℕ) (st : Server P) → Reachable P n st → n + 2 < 2 ^ 32 → AreCounted P st
  reached-AreCounted n st (started disk) room = construct-AreCounted P disk
  reached-AreCounted n st (stepped m u v r step) room =
      Step-AreCounted m u v (reached-IsConsistent P m u r (omega arith))
        (reached-AreCounted m u r (omega arith)) step

  destroy_sessions-owners :
      (sessions : Map ℕ (SocketSession RealSession)) (w : World P)
      → ((a : ℕ) → owners_of (get_elem? w.objects a) ≡ all_pointers a sessions)
      → (a : ℕ) → owners_of (get_elem? (destroy_sessions P sessions w).objects a) ≡ 0
  unfolding destroy_sessions destroy_session SocketSession.destroy total
      SocketSession.remove_socket_session_listener
  destroy_sessions-owners [] w owned a = owned a
  destroy_sessions-owners ((number, s) ∷ sessions) w owned a =
      destroy_sessions-owners sessions (destroy P (state_of P w s))
        (destroy-owners P (λ b. all_pointers b sessions) (state_of P w s) owned) a

  -- In every state of the daemon that fewer than 2 ^ 32 - 2 steps lead to, the owners of a log file
  -- object are exactly the open file handles for it, over all sessions: no object is destroyed while a
  -- handle of any client is open on it, and none outlives its last handle. When the daemon is shut
  -- down, every object is released.
  pub owners_lem :
      (n a : ℕ) (st : Server P) (o : LogFile)
      → Reachable P n st
      → n + 2 < 2 ^ 32
      → get_elem? st.world.objects a ≡ some o
      → (o.owners ≡ all_pointers a st.sessions)
        × (owners_of (get_elem? (shut_down P st).world.objects a) ≡ 0)
  unfolding shut_down
  owners_lem n a st o r room there =
      let c = reached-AreCounted n st r room in
      (sym (ap owners_of there) ∙ c.owned a, destroy_sessions-owners st.sessions st.world c.owned a)
