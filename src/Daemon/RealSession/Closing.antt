-- ===== src/Daemon/RealSession/Closing.antt =====
-- close_file, disconnect_client and the writes keep the session's books.
use logsvc.Common.{
  ℕ, ◌-◌, ◌≡◌, refl, inl, inr, none, some, [], ◌∷◌, get_elem?, arith, Option-cases, Bool-cases,
}
use logsvc.Common.Map.{Map, find, erase, find-erase}
use logsvc.Common.Text.{Bytes}
use logsvc.Daemon.Collection.Growth.{Grows, recount-Grows, IsCollected-Grows}
use logsvc.Daemon.LogFile as LogFile
use logsvc.Daemon.RealSession.{
  RealSession, State, write_message, close_file, closed_by, disconnect_client, write_farewells,
  farewell, invalid_file_handle,
}
use logsvc.Daemon.RealSession.Invariant.{
  IsValid, IsSound, IsValid-Grows, logged, logged-IsValid, write_open, write_invalid,
}
use logsvc.Daemon.World.{World, LogFile, Pointer}
use logsvc.Errors.{Result, ok, throw, fault}
use logsvc.Exec.{Exec, resume}
use logsvc.Log.Handles.{FileHandle, ClientHandle, handle_order, client_handle_eq}
use logsvc.Platform.{Platform}

module _ (P : Platform) where
  pub logged-IsSound :
      (st : State P) (o : LogFile) (message : Bytes)
      → IsSound P st
      → IsSound P (logged P st o message)
  logged-IsSound st o message s = record {
    valid = logged-IsValid P st o message s.valid;
    shared = record {
      collected = λ q f h.
          let (a, e, held) = s.shared.collected q f h in
          (a, e, record { object = held.object; there = held.there; for_path = held.for_path });
    };
  }

  -- In a sound session a write is refused, or is one line.
  pub data Writes (st : State P) (fh : FileHandle) (message : Bytes)
      (r : Result (Unit {0}) × State P) : Type 0 where
    wrote :
        (a : ℕ) (o : LogFile)
        → find handle_order fh st.session.open_files ≡ some (some a)
        → get_elem? st.world.objects a ≡ some o
        → r ≡ (ok tt, logged P st o message)
        → Writes st fh message r
    unknown :
        find handle_order fh st.session.open_files ≡ none
        → r ≡ (throw invalid_file_handle, st)
        → Writes st fh message r

  pub write_message-Writes :
      (st : State P) (fh : FileHandle) (message : Bytes)
      → IsSound P st
      → Writes st fh message (write_message P fh message st)
  write_message-Writes st fh message s =
      elim (Option-cases (find handle_order fh st.session.open_files)) [
        | inl e ↦ unknown e (write_invalid P st fh message e)
        | inr (f, e) ↦
            let (a, o, is_a, there) = s.valid.files_live fh f e in
            let e' : find handle_order fh st.session.open_files ≡ some (some a) = cc in
            wrote a o e' there (write_open P st fh message a o e' there)
      ]

  Writes-IsSound :
      (st : State P) (fh : FileHandle) (message : Bytes) (r : Result (Unit {0}) × State P)
      → Writes st fh message r
      → IsSound P st
      → IsSound P r.1
  Writes-IsSound st fh message r (wrote a o e there q) s = rw q (logged-IsSound st o message s)
  Writes-IsSound st fh message r (unknown e q) s = rw q s

  pub write_message-IsSound :
      (st : State P) (fh : FileHandle) (message : Bytes)
      → IsSound P st
      → IsSound P (write_message P fh message st).1
  write_message-IsSound st fh message s =
      Writes-IsSound st fh message _ (write_message-Writes st fh message s) s

  -- The state after the handle has been erased and its pointer released.
  abbrev pub erased : State P → FileHandle → ℕ → State P
  erased st fh a = record {
    session = record st.session { open_files = erase handle_order fh st.session.open_files };
    world = LogFile.release P a st.world;
  }

  pub release-Grows :
      (w : World P) (a : ℕ) (o : LogFile)
      → get_elem? w.objects a ≡ some o
      → Grows P w (LogFile.release P a w)
  unfolding LogFile.release
  release-Grows w a o there =
      recount-Grows P w _ a o (record o { owners = o.owners - 1 }) there refl (rw there)

  erase-IsValid :
      (s : RealSession) (w : World P) (fh : FileHandle)
      → IsValid P (record { session = s; world = w })
      → IsValid P (record {
        session = record s { open_files = erase handle_order fh s.open_files };
        world = w;
      })
  erase-IsValid s w fh v =
      let found = λ (gh : FileHandle). find-erase handle_order fh gh s.open_files in
      record {
        counter_pos = v.counter_pos;
        handles_below = v.handles_below;
        handles_distinct = v.handles_distinct;
        files_below = λ gh f h. ground (arith, found gh, v.files_below gh f);
        files_live = λ gh f h. v.files_live gh f (ground (arith, found gh));
        files_located =
            λ q gh a o h k there. v.files_located q gh a o h (ground (arith, found gh)) there;
      }

  collection-release : (w : World P) (a : ℕ) → (LogFile.release P a w).collection ≡ w.collection
  unfolding LogFile.release
  collection-release w a = refl

  pub erased-IsSound :
      (st : State P) (fh : FileHandle) (a : ℕ) (o : LogFile)
      → get_elem? st.world.objects a ≡ some o
      → IsSound P st
      → IsSound P (erased st fh a)
  erased-IsSound st fh a o there s =
      let g = release-Grows st.world a o there in
      record {
        valid =
            IsValid-Grows P (erased st fh a).session st.world (erased st fh a).world g
              (erase-IsValid st.session st.world fh s.valid);
        shared = IsCollected-Grows P st.world _ g (collection-release st.world a) s.shared;
      }

  -- Closing an open handle logs the closing, and then erases the handle.
  pub close_open :
      (st : State P) (fh : FileHandle) (a : ℕ) (o : LogFile)
      → find handle_order fh st.session.open_files ≡ some (some a)
      → get_elem? st.world.objects a ≡ some o
      → close_file P fh st ≡ (ok tt, erased (logged P st o (closed_by P st)) fh a)
  unfolding close_file
  close_open st fh a o e there = rw (write_open P st fh (closed_by P st) a o e there) (rw e)

  pub close_unknown :
      (st : State P) (fh : FileHandle)
      → find handle_order fh st.session.open_files ≡ none
      → close_file P fh st ≡ (throw invalid_file_handle, st)
  unfolding close_file
  close_unknown st fh e = rw (write_invalid P st fh (closed_by P st) e)

  pub close_file-IsSound :
      (st : State P) (fh : FileHandle) → IsSound P st → IsSound P (close_file P fh st).1
  close_file-IsSound st fh s = go (write_message-Writes st fh (closed_by P st) s)
    where
      go :
          Writes st fh (closed_by P st) (write_message P fh (closed_by P st) st)
          → IsSound P (close_file P fh st).1
      go (wrote a o e there q) = rw (close_open st fh a o e there) (
          erased-IsSound (logged P st o (closed_by P st)) fh a o there
            (logged-IsSound st o (closed_by P st) s))
      go (unknown e q) = rw (close_unknown st fh e) s

  -- What follows a call keeps the session sound if both do.
  resume-IsSound :
      (r : Result (Unit {0}) × State P) (k : Exec (State P) (Unit {0}))
      → IsSound P r.1
      → ((st : State P) → IsSound P st → IsSound P (k st).1)
      → IsSound P (resume (λ _. k) r).1
  resume-IsSound (ok u, st) k s h = h st s
  resume-IsSound (throw e, st) k s h = s
  resume-IsSound (fault, st) k s h = s

  write_farewells-IsSound :
      (files : Map FileHandle Pointer) (st : State P)
      → IsSound P st
      → IsSound P (write_farewells P files st).1
  unfolding write_farewells
  write_farewells-IsSound [] st s = s
  write_farewells-IsSound ((fh, f) ∷ files) st s =
      resume-IsSound (write_message P fh farewell st) (write_farewells P files)
        (write_message-IsSound st fh farewell s) (write_farewells-IsSound files)

  pub disconnect_client-IsSound :
      (st : State P) (client : ClientHandle)
      → IsSound P st
      → IsSound P (disconnect_client P client st).1
  unfolding disconnect_client
  disconnect_client-IsSound st client s =
      elim (Bool-cases (client_handle_eq client st.session.client_handle)) [
        | inl right ↦ rw right (write_farewells-IsSound st.session.open_files st s)
        | inr wrong ↦ rw wrong s
      ]
