-- ===== src/Daemon/Server/Owned.antt =====
-- The count of the owners of each log file object, through what one step of the daemon does.
use logsvc.Common.{
  ℕ, ◌≡◌, refl, ◌∙◌, sym, subst, inl, inr, Option, none, some, List, [], ◌∷◌, ◌==◌, get_elem?,
  arith, Bool-cases,
}
use logsvc.Common.Map.{Map, find, erase, find-insert, find-assign, find-erase, same, nat_order}
use logsvc.Common.Map.Total.{
  total, IsUnique, total-insert, total-assign, total-erase, IsUnique-insert, IsUnique-assign,
  IsUnique-erase,
}
use logsvc.Daemon.RealSession.{RealSession, State, executor}
use logsvc.Daemon.RealSession.Acting.{Acts, untouched, performed, act-Acts}
use logsvc.Daemon.RealSession.Counted.{IsCounted, owners_of, pointers, destroy-owners}
use logsvc.Daemon.RealSession.Counting.{perform-IsCounted}
use logsvc.Daemon.Server.{
  Server, construct, with_world, without_world, put, connection_lost, destroy_session, forget, lose,
  notify, initiator_number,
}
use logsvc.Daemon.Server.Consistent.{accepted, state_of, joined}
use logsvc.Daemon.SessionFactory as SessionFactory
use logsvc.Daemon.SocketSession as SocketSession
use logsvc.Daemon.SocketSession.{SocketSession}
use logsvc.Daemon.SocketSession.Moves.{Moves, Step-Moves}
use logsvc.Daemon.SocketSession.Reachable as Connection
use logsvc.Log.Handles.{handle_order}
use logsvc.Platform.{Platform}

-- The pointers to the object at `a` in a session, and in all of them.
abbrev pub session_pointers : ℕ → SocketSession RealSession → ℕ
session_pointers a s = pointers a s.executor.open_files

abbrev pub all_pointers : ℕ → Map ℕ (SocketSession RealSession) → ℕ
all_pointers a sessions = total (session_pointers a) sessions

module _ (P : Platform) where
  pub record AreCounted (st : Server P) : Type 0 where
    pub unique : IsUnique nat_order st.sessions
    pub unique_files :
        (number : ℕ) (s : SocketSession RealSession)
        → find nat_order number st.sessions ≡ some s
        → IsUnique handle_order s.executor.open_files
    pub owned : (a : ℕ) → owners_of (get_elem? st.world.objects a) ≡ all_pointers a st.sessions

  pub construct-AreCounted : (disk : P.Disk) → AreCounted (construct P disk)
  unfolding construct SessionFactory.construct find IsUnique total
  construct-AreCounted disk = record {
    unique = tt;
    unique_files = λ number s h. cc;
    owned = λ a. refl;
  }

  -- The other sessions' pointers, while one session goes on.
  abbrev others : ℕ → Server P → ℕ → ℕ
  others number st a = all_pointers a (erase nat_order number st.sessions)

  one-IsCounted :
      (number : ℕ) (st : Server P) (s : SocketSession RealSession)
      → AreCounted st
      → find nat_order number st.sessions ≡ some s
      → IsCounted P (others number st) (state_of P st.world s)
  one-IsCounted number st s c there = record {
    unique = c.unique_files number s there;
    owned = λ a. omega (
      arith,
      c.owned a,
      total-erase nat_order (session_pointers a) number s st.sessions c.unique there,
    );
  }

  Moves-IsCounted :
      (rest : ℕ → ℕ) (u v : SocketSession (State P))
      → Moves P (executor P) u v
      → IsCounted P rest u.executor
      → IsCounted P rest v.executor
  Moves-IsCounted rest u v m c = elim m.acted [
    | inl e ↦ subst (IsCounted P rest) (sym e) c
    | inr (r, e) ↦ subst (IsCounted P rest) (sym e) (acted (act-Acts P r u.executor))
  ]
    where
      acted : {t : State P} → Acts P u.executor t → IsCounted P rest t
      acted (untouched e) = subst (IsCounted P rest) (sym e) c
      acted (performed r e) =
          subst (IsCounted P rest) (sym e) (perform-IsCounted P rest r u.executor c)

  pub completed-AreCounted :
      (number : ℕ) (st : Server P) (s : SocketSession RealSession) (s' : SocketSession (State P))
      → AreCounted st
      → find nat_order number st.sessions ≡ some s
      → Connection.Step P (executor P) (with_world P st.world s) s'
      → AreCounted (put P number s' st)
  unfolding put
  completed-AreCounted number st s s' c there step =
      let t = without_world P s' in
      let found = λ (j : ℕ). find-assign nat_order number j t st.sessions in
      let own =
        Moves-IsCounted (others number st) (with_world P st.world s) s'
          (Step-Moves P (executor P) (with_world P st.world s) s' step)
          (one-IsCounted number st s c there) in
      record {
        unique = IsUnique-assign nat_order number t s st.sessions there c.unique;
        unique_files = λ j u h. elim (Bool-cases (same nat_order number j)) [
          | inl hit ↦
              let e : t ≡ u = ground (arith, found j) in
              subst (λ (v : SocketSession RealSession). IsUnique handle_order v.executor.open_files)
                e own.unique
          | inr miss ↦ c.unique_files j u (ground (arith, found j))
        ];
        owned = λ a. omega (
          arith,
          own.owned a,
          total-assign nat_order (session_pointers a) number t s st.sessions there,
          total-erase nat_order (session_pointers a) number s st.sessions c.unique there,
        );
      }

  forget-AreCounted :
      (number : ℕ) (st : Server P)
      → AreCounted st
      → AreCounted (forget P number (find nat_order number st.sessions) st)
  unfolding forget destroy_session SocketSession.destroy
      SocketSession.remove_socket_session_listener
  forget-AreCounted number st c = by_found (find nat_order number st.sessions) refl
    where
      by_found :
          (o : Option (SocketSession RealSession))
          → find nat_order number st.sessions ≡ o
          → AreCounted (forget P number o st)
      by_found none e = c
      by_found (some s) e =
          let found = λ (j : ℕ). find-erase nat_order number j st.sessions in
          record {
            unique = IsUnique-erase nat_order number st.sessions c.unique;
            unique_files = λ j u h. c.unique_files j u (ground (arith, found j));
            owned =
                destroy-owners P (others number st) (state_of P st.world s)
                  (one-IsCounted number st s c e).owned;
          }

  notify-AreCounted :
      (ls : List ℕ) (number : ℕ) (st : Server P)
      → AreCounted st
      → AreCounted (notify P ls number st)
  unfolding notify
  notify-AreCounted [] number st c = c
  notify-AreCounted (l ∷ ls) number st c = elim (Bool-cases (l == initiator_number)) [
    | inl hit ↦ rw hit (notify-AreCounted ls number _ (forget-AreCounted number st c))
    | inr miss ↦ rw miss (notify-AreCounted ls number st c)
  ]

  pub lost-AreCounted :
      (number : ℕ) (st : Server P) → AreCounted st → AreCounted (connection_lost P number st)
  unfolding connection_lost lose
  lost-AreCounted number st c = by_found (find nat_order number st.sessions)
    where
      by_found : (o : Option (SocketSession RealSession)) → AreCounted (lose P number o st)
      by_found none = c
      by_found (some s) = notify-AreCounted (SocketSession.connection_lost s) number st c

  pub accepted-AreCounted :
      (st : Server P)
      → find nat_order st.initiator.created st.sessions ≡ none
      → AreCounted st
      → AreCounted (accepted P st)
  unfolding total IsUnique SocketSession.add_socket_session_listener SocketSession.start_listen
  accepted-AreCounted st new c =
      let i = st.initiator.created in
      let t = joined P st.world in
      let found = λ (j : ℕ). find-insert nat_order i j t st.sessions new in
      record {
        unique = IsUnique-insert nat_order i t st.sessions new c.unique;
        unique_files = λ j u h. elim (Bool-cases (same nat_order i j)) [
          | inl hit ↦
              let e : t ≡ u = ground (arith, found j) in
              subst (λ (v : SocketSession RealSession). IsUnique handle_order v.executor.open_files)
                e tt
          | inr miss ↦ c.unique_files j u (ground (arith, found j))
        ];
        owned = λ a.
            c.owned a
            ∙ omega (arith, total-insert nat_order (session_pointers a) i t st.sessions new);
      }
