-- ===== src/Daemon/RealSession/Invariant.antt =====
-- The bookkeeping of a session: which handle stands for which path, and which object it writes to.
use logsvc.Common.{ℕ, ◌+◌, ◌<◌, ◌≡◌, true, none, some, get_elem?, arith}
use logsvc.Common.Map.{find, same}
use logsvc.Common.Text.{Bytes}
use logsvc.Daemon.Collection.Growth.{IsCollected, Grows}
use logsvc.Daemon.RealSession.{
  RealSession, State, invalid_file_handle, log_line, get_timestamp, write_message,
}
use logsvc.Daemon.LogFile as LogFile
use logsvc.Daemon.Timestamp.{timestamp}
use logsvc.Daemon.TimestampFactory as TimestampFactory
use logsvc.Daemon.World.{World, LogFile, Pointer}
use logsvc.Errors.{FilePath, ok, throw}
use logsvc.Log.Handles.{FileHandle, handle_order}
use logsvc.Platform.{Platform}

module _ (P : Platform) where
  -- The world after a line has been appended to the file of `o`.
  abbrev pub logged : State P → LogFile → Bytes → State P
  logged st o message =
      let w = st.world in
      let s = st.session in
      record st {
        world = record w {
          disk = P.append w.disk o.filepath (
              log_line (timestamp P (P.local_time w.readings)) s.client_name s.client_address
                message);
          readings = w.readings + 1;
        };
      }

  -- A message for an open handle is one line, appended to the file of its object.
  pub write_open :
      (st : State P) (fh : FileHandle) (message : Bytes) (a : ℕ) (o : LogFile)
      → find handle_order fh st.session.open_files ≡ some (some a)
      → get_elem? st.world.objects a ≡ some o
      → write_message P fh message st ≡ (ok tt, logged st o message)
  unfolding write_message get_timestamp TimestampFactory.get_timestamp TimestampFactory.generate
      LogFile.write
  write_open st fh message a o e there = rw (P.lookup_lem, e) (rw (there, LogFile.write))

  pub write_invalid :
      (st : State P) (fh : FileHandle) (message : Bytes)
      → find handle_order fh st.session.open_files ≡ none
      → write_message P fh message st ≡ (throw invalid_file_handle, st)
  unfolding write_message
  write_invalid st fh message e = rw (P.lookup_lem, e)

  pub record IsValid (st : State P) : Type 0 where
    pub counter_pos : 0 < st.session.file_handle_counter
    -- Handles that have been given out are below the counter.
    pub handles_below :
        (p : FilePath) (fh : FileHandle)
        → find P.path_order p st.session.open_filehandles ≡ some fh
        → fh.fh < st.session.file_handle_counter
    -- Two paths never have one handle.
    pub handles_distinct :
        (p q : FilePath) (fh gh : FileHandle)
        → find P.path_order p st.session.open_filehandles ≡ some fh
        → find P.path_order q st.session.open_filehandles ≡ some gh
        → fh.fh ≡ gh.fh
        → same P.path_order p q ≡ true
    pub files_below :
        (fh : FileHandle) (f : Pointer)
        → find handle_order fh st.session.open_files ≡ some f
        → fh.fh < st.session.file_handle_counter
    -- An open handle writes to an object, and where the handle stands for a path, to one for it.
    pub files_live :
        (fh : FileHandle) (f : Pointer)
        → find handle_order fh st.session.open_files ≡ some f
        → (a : ℕ) × (o : LogFile) × (f ≡ some a) × (get_elem? st.world.objects a ≡ some o)
    pub files_located :
        (p : FilePath) (fh : FileHandle) (a : ℕ) (o : LogFile)
        → find P.path_order p st.session.open_filehandles ≡ some fh
        → find handle_order fh st.session.open_files ≡ some (some a)
        → get_elem? st.world.objects a ≡ some o
        → same P.path_order o.filepath p ≡ true

  -- What holds of a session between two requests.
  pub record IsSound (st : State P) : Type 0 where
    pub valid : IsValid st
    pub shared : IsCollected P st.world

  -- A session stays valid whatever the other sessions do to the world.
  pub IsValid-Grows :
      (s : RealSession) (w w' : World P)
      → Grows P w w'
      → IsValid (record { session = s; world = w })
      → IsValid (record { session = s; world = w' })
  IsValid-Grows s w w' g v = record {
    counter_pos = v.counter_pos;
    handles_below = v.handles_below;
    handles_distinct = v.handles_distinct;
    files_below = v.files_below;
    files_live = λ fh f h.
        let (a, o, e, there) = v.files_live fh f h in
        let (o', there', path) = g.keeps a o there in (a, o', e, there');
    files_located = λ p fh a o h k there. located p fh a o h k there (v.files_live fh (some a) k);
  }
    where
      located :
          (p : FilePath) (fh : FileHandle) (a : ℕ) (o : LogFile)
          → find P.path_order p s.open_filehandles ≡ some fh
          → find handle_order fh s.open_files ≡ some (some a)
          → get_elem? w'.objects a ≡ some o
          → (b : ℕ) × (u : LogFile) × (some a ≡ some b) × (get_elem? w.objects b ≡ some u)
          → same P.path_order o.filepath p ≡ true
      located p fh a o h k there (b, u, e, before) =
          let before' : get_elem? w.objects a ≡ some u = ground arith in
          let (u', now, path) = g.keeps a u before' in
          let q : o.filepath ≡ u.filepath = ground arith in
          rw q (v.files_located p fh a u h k before')

  -- A session that differs only in what the invariant does not read.
  pub logged-IsValid :
      (st : State P) (o : LogFile) (message : Bytes) → IsValid st → IsValid (logged st o message)
  logged-IsValid st o message v = record {
    counter_pos = v.counter_pos;
    handles_below = v.handles_below;
    handles_distinct = v.handles_distinct;
    files_below = v.files_below;
    files_live = v.files_live;
    files_located = v.files_located;
  }
