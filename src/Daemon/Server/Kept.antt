-- ===== src/Daemon/Server/Kept.antt =====
-- What a completion on one connection keeps, for its session and for the others.
use logsvc.Common.{◌+◌, ◌<◌, ◌^◌, sym, subst, inl, inr, [], ◌∷◌, arith}
use logsvc.Daemon.Collection.Growth.{Grows, Grows-refl}
use logsvc.Daemon.RealSession.{State, executor}
use logsvc.Daemon.RealSession.Acting.{Acts, untouched, performed, act-Acts}
use logsvc.Daemon.RealSession.Invariant.{IsSound}
use logsvc.Daemon.RealSession.Requests.{Request, perform, performs, performs-KeepsAll}
use logsvc.Daemon.RealSession.Sharing.{perform-Grows}
use logsvc.Daemon.SocketSession.{SocketSession}
use logsvc.Daemon.SocketSession.Moves.{Step-Moves}
use logsvc.Daemon.SocketSession.Reachable.{Step}
use logsvc.Platform.{Platform}

module _ (P : Platform) where
  pub record Kept (st st' : State P) : Type 0 where
    pub sound : IsSound P st'
    pub grows : Grows P st.world st'.world
    pub counted : st'.session.file_handle_counter < st.session.file_handle_counter + 2

  module _ (st : State P) (s : IsSound P st)
      (room : st.session.file_handle_counter + 1 < 2 ^ 32) where
    Kept-refl : Kept st st
    Kept-refl = record { sound = s; grows = Grows-refl P st.world; counted = omega arith }

    perform-Kept : (r : Request) → Kept st (perform P r st)
    unfolding performs
    perform-Kept r =
        let k = performs-KeepsAll P (r ∷ []) st s (omega arith) in
        record {
          sound = k.sound;
          grows = perform-Grows P r st s room;
          counted = omega (arith, k.counted);
        }

    Acts-Kept : (st' : State P) → Acts P st st' → Kept st st'
    Acts-Kept st' (untouched e) = subst (Kept st) (sym e) Kept-refl
    Acts-Kept st' (performed r e) = subst (Kept st) (sym e) (perform-Kept r)

  -- A completion on the socket of a sound session.
  pub Step-Kept :
      (c c' : SocketSession (State P))
      → IsSound P c.executor
      → c.executor.session.file_handle_counter + 1 < 2 ^ 32
      → Step P (executor P) c c'
      → Kept c.executor c'.executor
  Step-Kept c c' s room step =
      let m = Step-Moves P (executor P) c c' step in
      elim m.acted [
        | inl e ↦ subst (Kept c.executor) (sym e) (Kept-refl c.executor s room)
        | inr (r, e) ↦
            subst (Kept c.executor) (sym e)
              (Acts-Kept c.executor s room _ (act-Acts P r c.executor))
      ]
