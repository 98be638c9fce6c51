-- ===== src/Daemon/RealSession/Sharing.antt =====
-- What the requests of one session do to the world that it shares with the other sessions.
use logsvc.Common.{
  ℕ, get_elem?, Option-cases, ◌+◌, ◌<◌, ◌^◌, ◌≡◌, refl, sym, subst, inl, inr, none, some, [], ◌∷◌,
  Bool-cases,
}
use logsvc.Common.Map.{Map}
use logsvc.Common.Text.{Bytes}
use logsvc.Daemon.Collection.Growth.{IsCollected, Grows, Grows-refl, Grows-trans, IsCollected-Grows}
use logsvc.Daemon.LogFile as LogFile
use logsvc.Daemon.RealSession.{
  State, write_message, open_file, close_file, closed_by, opened_by, write_farewells,
  set_client_info, disconnect_client, farewell, destroy, release_all, release_pointer,
}
use logsvc.Daemon.RealSession.Closing.{
  write_message-Writes, Writes, wrote, unknown, write_message-IsSound, close_open, close_unknown,
  release-Grows,
}
use logsvc.Daemon.RealSession.Invariant.{IsSound, logged}
use logsvc.Daemon.RealSession.OpenFile.{Ends, opened, failed, died, open_file-Ends}
use logsvc.Daemon.RealSession.Requests.{
  Request, opens, closes, writes, introduces, disconnects, perform,
}
use logsvc.Daemon.World.{World, LogFile, Pointer}
use logsvc.Errors.{FilePath, Result, ok, throw, fault}
use logsvc.Exec.{resume}
use logsvc.Log.Handles.{FileHandle, ClientHandle, client_handle_eq}
use logsvc.Platform.{Platform}

module _ (P : Platform) where
  -- A line in the log moves no object.
  logged-Grows :
      (w : World P) (st : State P) (o : LogFile) (message : Bytes)
      → Grows P w st.world
      → Grows P w (logged P st o message).world
  logged-Grows w st o message g = record { keeps = g.keeps }

  open_file-Grows :
      (p : FilePath) (st : State P)
      → IsSound P st
      → st.session.file_handle_counter + 1 < 2 ^ 32
      → Grows P st.world (open_file P p st).1.world
  open_file-Grows p st s room = go _ (open_file-Ends P p st s room)
    where
      go : (r : Result FileHandle × State P) → Ends P p st s room r → Grows P st.world r.1.world
      go r (opened fh st' a o sound g facts file there path e) =
          rw e (logged-Grows st.world st' o (opened_by P st') g)
      go r (failed x fh st' h sound facts same e) =
          rw e (subst (Grows P st.world) (sym same) (Grows-refl P st.world))
      go r (died fh st' h sound facts same e) =
          rw e (subst (Grows P st.world) (sym same) (Grows-refl P st.world))

  write_message-Grows :
      (fh : FileHandle) (message : Bytes) (st : State P)
      → IsSound P st
      → Grows P st.world (write_message P fh message st).1.world
  write_message-Grows fh message st s = go _ (write_message-Writes P st fh message s)
    where
      go : (r : Result (Unit {0}) × State P) → Writes P st fh message r → Grows P st.world r.1.world
      go r (wrote a o e there q) = rw q (logged-Grows st.world st o message (Grows-refl P st.world))
      go r (unknown e q) = rw q (Grows-refl P st.world)

  close_file-Grows :
      (fh : FileHandle) (st : State P)
      → IsSound P st
      → Grows P st.world (close_file P fh st).1.world
  close_file-Grows fh st s = go (write_message-Writes P st fh (closed_by P st) s)
    where
      go :
          Writes P st fh (closed_by P st) (write_message P fh (closed_by P st) st)
          → Grows P st.world (close_file P fh st).1.world
      go (wrote a o e there q) =
          let after = (logged P st o (closed_by P st)).world in
          rw (close_open P st fh a o e there) (
            Grows-trans P (logged-Grows st.world st o (closed_by P st) (Grows-refl P st.world))
              (release-Grows P after a o there))
      go (unknown e q) = rw (close_unknown P st fh e) (Grows-refl P st.world)

  farewells-Grows :
      (files : Map FileHandle Pointer) (st : State P)
      → IsSound P st
      → Grows P st.world (write_farewells P files st).1.world
  unfolding write_farewells
  farewells-Grows [] st s = Grows-refl P st.world
  farewells-Grows ((fh, f) ∷ files) st s =
      after (write_message P fh farewell st) (write_message-Grows fh farewell st s)
        (write_message-IsSound P st fh farewell s) (farewells-Grows files)
    where
      after :
          (r : Result (Unit {0}) × State P)
          → Grows P st.world r.1.world
          → IsSound P r.1
          → ((t : State P) → IsSound P t → Grows P t.world (write_farewells P files t).1.world)
          → Grows P st.world (resume (λ _. write_farewells P files) r).1.world
      after (ok u, t) g s rest = Grows-trans P g (rest t s)
      after (throw e, t) g s rest = g
      after (fault, t) g s rest = g

  disconnect_client-Grows :
      (client : ClientHandle) (st : State P)
      → IsSound P st
      → Grows P st.world (disconnect_client P client st).1.world
  unfolding disconnect_client
  disconnect_client-Grows client st s =
      elim (Bool-cases (client_handle_eq client st.session.client_handle)) [
        | inl right ↦ rw right (farewells-Grows st.session.open_files st s)
        | inr wrong ↦ rw wrong (Grows-refl P st.world)
      ]

  -- Whatever a session asks for, the objects of the others stay where they are.
  pub perform-Grows :
      (r : Request) (st : State P)
      → IsSound P st
      → st.session.file_handle_counter + 1 < 2 ^ 32
      → Grows P st.world (perform P r st).world
  unfolding perform set_client_info
  perform-Grows (opens p) st s room = open_file-Grows p st s room
  perform-Grows (closes fh) st s room = close_file-Grows fh st s
  perform-Grows (writes fh message) st s room = write_message-Grows fh message st s
  perform-Grows (introduces name address) st s room = Grows-refl P st.world
  perform-Grows (disconnects client) st s room = disconnect_client-Grows client st s

  released-Grows : (w : World P) (a : ℕ) → Grows P w (LogFile.release P a w)
  unfolding LogFile.release
  released-Grows w a = elim (Option-cases (get_elem? w.objects a)) [
    | inl gone ↦ record { keeps = λ b o h. (o, rw gone h, refl) }
    | inr (o, there) ↦ release-Grows P w a o there
  ]

  release_all-Grows :
      (files : Map FileHandle Pointer) (w : World P) → Grows P w (release_all P files w)
  unfolding release_all release_pointer
  release_all-Grows [] w = Grows-refl P w
  release_all-Grows ((fh, none) ∷ files) w = release_all-Grows files w
  release_all-Grows ((fh, some a) ∷ files) w =
      Grows-trans P (released-Grows w a) (release_all-Grows files (LogFile.release P a w))

  release_all-collection :
      (files : Map FileHandle Pointer) (w : World P)
      → (release_all P files w).collection ≡ w.collection
  unfolding release_all release_pointer LogFile.release
  release_all-collection [] w = refl
  release_all-collection ((fh, none) ∷ files) w = release_all-collection files w
  release_all-collection ((fh, some a) ∷ files) w =
      release_all-collection files (LogFile.release P a w)

  release_all-disk :
      (files : Map FileHandle Pointer) (w : World P) → (release_all P files w).disk ≡ w.disk
  unfolding release_all release_pointer LogFile.release
  release_all-disk [] w = refl
  release_all-disk ((fh, none) ∷ files) w = release_all-disk files w
  release_all-disk ((fh, some a) ∷ files) w = release_all-disk files (LogFile.release P a w)

  pub destroy-disk : (st : State P) → (destroy P st).disk ≡ st.world.disk
  unfolding destroy
  destroy-disk st = release_all-disk st.session.open_files st.world

  -- The end of a session leaves the objects where they are.
  pub destroy-Grows : (st : State P) → Grows P st.world (destroy P st)
  unfolding destroy
  destroy-Grows st = release_all-Grows st.session.open_files st.world

  pub destroy-IsCollected : (st : State P) → IsCollected P st.world → IsCollected P (destroy P st)
  unfolding destroy
  destroy-IsCollected st c =
      IsCollected-Grows P st.world _ (destroy-Grows st)
        (release_all-collection st.session.open_files st.world) c
