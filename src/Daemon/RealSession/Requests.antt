-- ===== src/Daemon/RealSession/Requests.antt =====
-- A session through any sequence of requests.
use logsvc.Common.{
  ◌+◌, ◌<◌, ◌^◌, ◌≡◌, refl, ◌∙◌, ap, inl, inr, none, some, List, [], ◌∷◌, length, arith, Bool-cases,
}
use logsvc.Common.Map.{Map, find, same}
use logsvc.Daemon.LogFile as LogFile
use logsvc.Common.Text.{Bytes}
use logsvc.Daemon.RealSession.{
  RealSession, State, write_message, open_file, close_file, closed_by, opened_by, write_line,
  write_farewells, get_timestamp, set_client_info, disconnect_client, farewell,
}
use logsvc.Daemon.RealSession.Closing.{
  write_message-Writes, Writes, wrote, unknown, write_message-IsSound, close_file-IsSound,
  disconnect_client-IsSound, logged-IsSound, close_open, close_unknown,
}
use logsvc.Daemon.RealSession.Invariant.{IsValid, IsSound}
use logsvc.Daemon.RealSession.OpenFile.{Ends, opened, failed, died, open_file-Ends}
use logsvc.Daemon.TimestampFactory as TimestampFactory
use logsvc.Daemon.World.{Pointer}
use logsvc.Errors.{FilePath, Result, ok, throw, fault}
use logsvc.Exec.{resume}
use logsvc.Log.Handles.{FileHandle, ClientHandle, handle_order, client_handle_eq}
use logsvc.Platform.{Platform}

-- The calls of Executor.h.
pub data Request : Type 0 where
  opens : FilePath → Request
  closes : FileHandle → Request
  writes : FileHandle → Bytes → Request
  introduces : Bytes → Bytes → Request
  disconnects : ClientHandle → Request

module _ (P : Platform) where
  -- The state after a call, whether it returned or threw.
  unfoldable pub perform : Request → State P → State P
  perform (opens p) st = (open_file P p st).1
  perform (closes fh) st = (close_file P fh st).1
  perform (writes fh message) st = (write_message P fh message st).1
  perform (introduces name address) st = (set_client_info P name address st).1
  perform (disconnects client) st = (disconnect_client P client st).1

  unfoldable pub performs : List Request → State P → State P
  unfolding perform
  performs [] st = st
  performs (r ∷ rs) st = performs rs (perform r st)

  Ends-IsSound :
      (p : FilePath) (st : State P) (s : IsSound P st)
      (room : st.session.file_handle_counter + 1 < 2 ^ 32) (r : Result FileHandle × State P)
      → Ends P p st s room r
      → IsSound P r.1
  Ends-IsSound p st s room r (opened fh st' a o sound g facts file there path e) =
      rw e (logged-IsSound P st' o (opened_by P st') sound)
  Ends-IsSound p st s room r (failed x fh st' h sound facts same e) = rw e sound
  Ends-IsSound p st s room r (died fh st' h sound facts same e) = rw e sound

  open_file-IsSound :
      (p : FilePath) (st : State P)
      → IsSound P st
      → st.session.file_handle_counter + 1 < 2 ^ 32
      → IsSound P (open_file P p st).1
  open_file-IsSound p st s room = Ends-IsSound p st s room _ (open_file-Ends P p st s room)

  -- A write is about what is shared: of the session it changes nothing.
  pub write_message-session :
      (fh : FileHandle) (message : Bytes) (st : State P)
      → (write_message P fh message st).1.session ≡ st.session
  unfolding write_message write_line get_timestamp TimestampFactory.get_timestamp
      TimestampFactory.generate LogFile.write
  write_message-session fh message st =
      line (P.lookup FileHandle Pointer handle_order fh st.session.open_files none)
    where
      line : (f : Pointer) → (write_line P f message st).1.session ≡ st.session
      line none = refl
      line (some a) = refl

  resume-session :
      (st : State P) (r : Result (Unit {0}) × State P) (k : State P → Result (Unit {0}) × State P)
      → r.1.session ≡ st.session
      → ((st' : State P) → (k st').1.session ≡ st'.session)
      → (resume (λ _. k) r).1.session ≡ st.session
  resume-session st (ok u, st') k e h = h st' ∙ e
  resume-session st (throw x, st') k e h = e
  resume-session st (fault, st') k e h = e

  write_farewells-session :
      (files : Map FileHandle Pointer) (st : State P)
      → (write_farewells P files st).1.session ≡ st.session
  unfolding write_farewells
  write_farewells-session [] st = refl
  write_farewells-session ((fh, f) ∷ files) st =
      resume-session st (write_message P fh farewell st) (write_farewells P files)
        (write_message-session fh farewell st) (write_farewells-session files)

  -- What a request keeps: the books, and the handles that have been given out.
  record Keeps (st st' : State P) : Type 0 where
    sound : IsSound P st'
    stable :
        (q : FilePath) (gh : FileHandle)
        → find P.path_order q st.session.open_filehandles ≡ some gh
        → find P.path_order q st'.session.open_filehandles ≡ some gh
    counted : st'.session.file_handle_counter < st.session.file_handle_counter + 2

  quiet-Keeps :
      (st st' : State P)
      → IsSound P st'
      → st'.session.open_filehandles ≡ st.session.open_filehandles
      → st'.session.file_handle_counter ≡ st.session.file_handle_counter
      → Keeps st st'
  quiet-Keeps st st' s same_handles same_counter = record {
    sound = s;
    stable = λ q gh h. rw same_handles h;
    counted = omega arith;
  }

  open_file-Keeps :
      (p : FilePath) (st : State P)
      → IsSound P st
      → st.session.file_handle_counter + 1 < 2 ^ 32
      → Keeps st (open_file P p st).1
  open_file-Keeps p st s room = go _ (open_file-Ends P p st s room)
    where
      go : (r : Result FileHandle × State P) → Ends P p st s room r → Keeps st r.1
      go r (opened fh st' a o sound g facts file there path e) = rw e record {
        sound = logged-IsSound P st' o (opened_by P st') sound;
        stable = facts.stable;
        counted = facts.counted;
      }
      go r (failed x fh st' h sound facts same e) =
          rw e record { sound = sound; stable = facts.stable; counted = facts.counted }
      go r (died fh st' h sound facts same e) =
          rw e record { sound = sound; stable = facts.stable; counted = facts.counted }

  close_file-Keeps :
      (fh : FileHandle) (st : State P) → IsSound P st → Keeps st (close_file P fh st).1
  close_file-Keeps fh st s = go (write_message-Writes P st fh (closed_by P st) s)
    where
      go :
          Writes P st fh (closed_by P st) (write_message P fh (closed_by P st) st)
          → Keeps st (close_file P fh st).1
      go (wrote a o e there q) =
          let sound = close_file-IsSound P st fh s in
          let r = close_open P st fh a o e there in quiet-Keeps st _ sound (rw r refl) (rw r refl)
      go (unknown e q) = rw (close_unknown P st fh e) (quiet-Keeps st st s refl refl)

  disconnect_client-Keeps :
      (client : ClientHandle) (st : State P)
      → IsSound P st
      → Keeps st (disconnect_client P client st).1
  unfolding disconnect_client
  disconnect_client-Keeps client st s =
      let sound = disconnect_client-IsSound P st client s in
      let e : (disconnect_client P client st).1.session ≡ st.session =
        elim (Bool-cases (client_handle_eq client st.session.client_handle)) [
          | inl right ↦ rw right (write_farewells-session st.session.open_files st)
          | inr wrong ↦ rw wrong
        ] in
      quiet-Keeps st _ sound (ap (λ (t : RealSession). t.open_filehandles) e)
        (ap (λ (t : RealSession). t.file_handle_counter) e)

  perform-Keeps :
      (r : Request) (st : State P)
      → IsSound P st
      → st.session.file_handle_counter + 1 < 2 ^ 32
      → Keeps st (perform r st)
  unfolding set_client_info perform
  perform-Keeps (opens p) st s room = open_file-Keeps p st s room
  perform-Keeps (closes fh) st s room = close_file-Keeps fh st s
  perform-Keeps (writes fh message) st s room =
      let e = write_message-session fh message st in
      quiet-Keeps st _ (write_message-IsSound P st fh message s)
        (ap (λ (t : RealSession). t.open_filehandles) e)
        (ap (λ (t : RealSession). t.file_handle_counter) e)
  perform-Keeps (introduces name address) st s room =
      quiet-Keeps st _ (record { valid = renamed; shared = s.shared }) refl refl
    where
      renamed : IsValid P (set_client_info P name address st).1
      renamed = record {
        counter_pos = s.valid.counter_pos;
        handles_below = s.valid.handles_below;
        handles_distinct = s.valid.handles_distinct;
        files_below = s.valid.files_below;
        files_live = s.valid.files_live;
        files_located = s.valid.files_located;
      }
  perform-Keeps (disconnects client) st s room = disconnect_client-Keeps client st s

  -- What any number of requests keeps.
  pub record KeepsAll (rs : List Request) (st : State P) : Type 0 where
    pub sound : IsSound P (performs rs st)
    pub stable :
        (q : FilePath) (gh : FileHandle)
        → find P.path_order q st.session.open_filehandles ≡ some gh
        → find P.path_order q (performs rs st).session.open_filehandles ≡ some gh
    pub counted :
        (performs rs st).session.file_handle_counter
        < st.session.file_handle_counter + length rs + 1

  -- From a sound session, through any requests, whether they return or throw, as long as the counter
  -- does not wrap around: the session stays sound, every path that has a handle keeps it, and a
  -- request gives out at most one handle.
  pub performs-KeepsAll :
      (rs : List Request) (st : State P)
      → IsSound P st
      → st.session.file_handle_counter + length rs < 2 ^ 32
      → KeepsAll rs st
  unfolding performs
  performs-KeepsAll [] st s room = record { sound = s; stable = λ q gh h. h; counted = omega arith }
  performs-KeepsAll (r ∷ rs) st s room =
      let k = perform-Keeps r st s (omega arith) in
      let k_counted = k.counted in
      let rest = performs-KeepsAll rs (perform r st) k.sound (omega arith) in
      let rest_counted = rest.counted in
      record {
        sound = rest.sound;
        stable = λ q gh h. rest.stable q gh (k.stable q gh h);
        counted = omega arith;
      }
