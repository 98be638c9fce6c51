-- ===== src/Daemon/Server/Lasting.antt =====
-- Connections that are lost, and the daemon in all of its states.
use logsvc.Common.{
  ℕ, suc, ◌+◌, ◌<◌, ◌^◌, ◌≡◌, refl, ◌∙◌, ap, sym, subst, true, ◌⊎◌, inl, inr, Option, none, some,
  List, [], ◌∷◌, ◌==◌, if◌then◌else◌, arith, Bool-cases,
}
use logsvc.Common.Map.{find, find-erase, same, nat_order}
use logsvc.Common.Text.{Bytes}
use logsvc.Daemon.Collection.Growth.{Grows}
use logsvc.Daemon.RealSession.{RealSession}
use logsvc.Daemon.RealSession.Sharing.{destroy-Grows, destroy-IsCollected}
use logsvc.Daemon.Server.{
  Server, Step, Reachable, has_accepted, has_completed, has_lost, started, stepped, handle_accept,
  connection_lost, destroy_session, forget, lose, notify, initiator_number,
}
use logsvc.Daemon.SessionInitiator as SessionInitiator
use logsvc.Daemon.SessionInitiator.Live.{lost-IsWatching, lost-live_sessions}
use logsvc.Daemon.SocketSession as SocketSession
use logsvc.Daemon.SocketSession.{SocketSession}
use logsvc.Daemon.RealSession.{write_message, invalid_file_handle}
use logsvc.Daemon.RealSession.Closing.{wrote, unknown, write_message-Writes}
use logsvc.Daemon.RealSession.Invariant.{logged}
use logsvc.Daemon.World.{LogFile}
use logsvc.Log.Handles.{FileHandle}
use logsvc.Errors.{FilePath, Result, ok, throw}
use logsvc.Platform.{Platform}
use logsvc.Daemon.Server.Consistent.{
  IsServed-Grows, IsConsistent, construct-IsConsistent, completed-IsConsistent, accepted,
  accept_requested-by, accepted-IsConsistent, state_of,
}

module _ (P : Platform) where
  weaken : (n : ℕ) (st : Server P) → IsConsistent P n st → IsConsistent P (suc n) st
  weaken n st c = record {
    shared = c.shared;
    served = λ j t h.
        IsServed-Grows P n (suc n) st.world st.world t (omega arith)
          (record { keeps = λ a o e. (o, e, refl) }) (c.served j t h);
    watching = c.watching;
    owned = c.owned;
    kept = c.kept;
  }

  -- A session that is lost is forgotten, and its files are released.
  forget-IsConsistent :
      (n number : ℕ) (st : Server P)
      → IsConsistent P n st
      → IsConsistent P n (forget P number (find nat_order number st.sessions) st)
  unfolding forget destroy_session SocketSession.destroy
      SocketSession.remove_socket_session_listener
  forget-IsConsistent n number st c = by_found (find nat_order number st.sessions) refl
    where
      live :
          (j : ℕ)
          → find nat_order j (SessionInitiator.connection_lost number st.initiator).live_sessions
            ≡ (if same nat_order number j
                then none
                else find nat_order j st.initiator.live_sessions)
      live j = lost-live_sessions st.initiator number j

      by_found :
          (o : Option (SocketSession RealSession))
          → find nat_order number st.sessions ≡ o
          → IsConsistent P n (forget P number o st)
      by_found none e = c
      by_found (some s) e =
          let found = λ (j : ℕ). find-erase nat_order number j st.sessions in
          let g : Grows P st.world (forget P number (some s) st).world =
            destroy-Grows P (state_of P st.world s) in
          record {
            shared = destroy-IsCollected P (state_of P st.world s) c.shared;
            served = λ j t h.
                IsServed-Grows P n n st.world _ t (omega arith) g
                  (c.served j t (ground (arith, found j)));
            watching = lost-IsWatching st.initiator number c.watching;
            owned = λ j h. ground (arith, found j, live j, c.owned j);
            kept = λ j h. ground (arith, found j, live j, c.kept j);
          }

  notify-IsConsistent :
      (ls : List ℕ) (n number : ℕ) (st : Server P)
      → IsConsistent P n st
      → IsConsistent P n (notify P ls number st)
  unfolding notify
  notify-IsConsistent [] n number st c = c
  notify-IsConsistent (l ∷ ls) n number st c = elim (Bool-cases (l == initiator_number)) [
    | inl hit ↦ rw hit (notify-IsConsistent ls n number _ (forget-IsConsistent n number st c))
    | inr miss ↦ rw miss (notify-IsConsistent ls n number st c)
  ]

  lost-IsConsistent :
      (n number : ℕ) (st : Server P)
      → IsConsistent P n st
      → IsConsistent P n (connection_lost P number st)
  unfolding connection_lost lose
  lost-IsConsistent n number st c = by_found (find nat_order number st.sessions)
    where
      by_found : (o : Option (SocketSession RealSession)) → IsConsistent P n (lose P number o st)
      by_found none = c
      by_found (some s) = notify-IsConsistent (SocketSession.connection_lost s) n number st c

  -- An accept has completed, and `k` others have not.
  abbrev pub without : ℕ → Server P → Server P
  without k st = record st { initiator = record st.initiator { accepting = k } }

  refused-IsConsistent :
      (n k : ℕ) (message : Bytes) (st : Server P)
      → st.initiator.accepting ≡ suc k
      → IsConsistent P n st
      → IsConsistent P n (record st {
        initiator = SessionInitiator.error_occurred message (without k st).initiator;
      })
  unfolding SessionInitiator.error_occurred
  refused-IsConsistent n k message st q c = record {
    shared = c.shared;
    served = c.served;
    watching = record {
      accepting_one = omega (arith, c.watching.accepting_one);
      watched = c.watching.watched;
      numbered = c.watching.numbered;
    };
    owned = c.owned;
    kept = c.kept;
  }

  Step-IsConsistent :
      (n : ℕ) (st st' : Server P)
      → n + 2 < 2 ^ 32
      → IsConsistent P n st
      → Step P st st'
      → IsConsistent P (suc n) st'
  unfolding handle_accept
  Step-IsConsistent n st st' room c (has_accepted none k q e) =
      let none_left : k ≡ 0 = omega (arith, c.watching.accepting_one) in
      let after : accepted P (without k st) ≡ st' =
        ap (λ (t : Result (Unit {0}) × Server P). t.1)
          (sym (accept_requested-by P (without k st)) ∙ e) in
      subst (IsConsistent P (suc n)) after (
        subst (λ (m : ℕ). IsConsistent P (suc n) (accepted P (without m st))) (sym none_left)
          (accepted-IsConsistent P n st c))
  Step-IsConsistent n st st' room c (has_accepted (some message) k q e) =
      let after = ap (λ (t : Result (Unit {0}) × Server P). t.1) e in
      subst (IsConsistent P (suc n)) after (weaken n _ (refused-IsConsistent n k message st q c))
  Step-IsConsistent n st st' room c (has_completed number s s' there step e) =
      subst (IsConsistent P (suc n)) (sym e)
        (completed-IsConsistent P n st number s s' room c there step)
  Step-IsConsistent n st st' room c (has_lost number e) =
      subst (IsConsistent P (suc n)) (sym e) (weaken n _ (lost-IsConsistent n number st c))

  -- In every state of the daemon that fewer than 2 ^ 32 - 2 steps lead to, from any disk, with any
  -- number of clients whose connections are accepted, go on and are lost in any order: each session
  -- is sound in what it shares with the others, the initiator listens to it, and the sessions are
  -- exactly those that the initiator keeps.
  pub reached-IsConsistent :
      (n : ℕ) (st : Server P) → Reachable P n st → n + 2 < 2 ^ 32 → IsConsistent P n st
  reached-IsConsistent n st (started disk) room = construct-IsConsistent P disk
  reached-IsConsistent n st (stepped m u v r step) room =
      Step-IsConsistent m u v (omega arith) (reached-IsConsistent m u r (omega arith)) step

  -- In every state of the daemon, a message that a client sends for the handle of a path is refused, and
  -- changes nothing, or is appended as one line to the file of an object for that path: whatever the
  -- other clients have done.
  pub delivered_lem :
      (n number : ℕ) (st : Server P) (s : SocketSession RealSession) (p : FilePath)
      (fh : FileHandle) (message : Bytes)
      → Reachable P n st
      → n + 2 < 2 ^ 32
      → find nat_order number st.sessions ≡ some s
      → find P.path_order p s.executor.open_filehandles ≡ some fh
      → (write_message P fh message (state_of P st.world s)
          ≡ (throw invalid_file_handle, state_of P st.world s))
        ⊎ ((o : LogFile) × (same P.path_order o.filepath p ≡ true)
            × (write_message P fh message (state_of P st.world s)
                ≡ (ok tt, logged P (state_of P st.world s) o message)))
  delivered_lem n number st s p fh message r room there named =
      let c = reached-IsConsistent n st r room in
      let valid = (c.served number s there).valid in
      elim (write_message-Writes P (state_of P st.world s) fh message
        (record { valid = valid; shared = c.shared })) [
          | wrote a o is_open held e ↦ inr (o, valid.files_located p fh a o named is_open held, e)
          | unknown e q ↦ inl q
        ]
