-- ===== src/Daemon/RealSession/Endings.antt =====
-- How a session begins, and how files and sessions are closed.
use logsvc.Common.{
  ℕ, ◌+◌, ◌%◌, ◌^◌, ◌≡◌, refl, true, false, ◌⊎◌, inl, inr, none, some, [], ◌∷◌, ◌++◌, get_elem?,
  if◌then◌else◌, arith, Bool-cases,
}
use logsvc.Common.Map.{Map, find, find-erase, same, same_refl}
use logsvc.Common.Text.{Bytes, codes}
use logsvc.Daemon.Collection.Growth.{IsCollected, IsCollected-Grows}
use logsvc.Daemon.RealSession.{
  RealSession, State, construct, write_message, close_file, closed_by, disconnect_client,
  write_farewells, farewell, invalid_file_handle, wrong_client_handle,
}
use logsvc.Daemon.RealSession.Closing.{
  write_message-Writes, Writes, wrote, unknown, close_open, close_unknown, erased, logged-IsSound,
}
use logsvc.Daemon.RealSession.Invariant.{IsValid, IsSound, logged, write_open, write_invalid}
use logsvc.Daemon.LogFile as LogFile
use logsvc.Daemon.World.{World, LogFile, Pointer, generate_client_handle}
use logsvc.Errors.{FilePath, ok, throw}
use logsvc.Log.Handles.{FileHandle, ClientHandle, handle_order, client_handle_eq, client_handle_of}
use logsvc.Platform.{Platform}

module _ (P : Platform) where
  -- What close_file does: a handle that is not open is refused, and nothing changes. Of an open one the
  -- closing is logged in the file of its object and its pointer is released, and afterwards neither a
  -- message for it nor another close_file changes anything.
  pub data Closes (fh : FileHandle) (message : Bytes) (st : State P) : Type 0 where
    not_open :
        find handle_order fh st.session.open_files ≡ none
        → close_file P fh st ≡ (throw invalid_file_handle, st)
        → Closes fh message st
    closed :
        (a : ℕ) (o : LogFile) (st' : State P)
        → find handle_order fh st.session.open_files ≡ some (some a)
        → get_elem? st.world.objects a ≡ some o
        → close_file P fh st ≡ (ok tt, st')
        → st'.world
          ≡ LogFile.release P a
              (logged P st o
                (codes "Log closed by \"" ++ (st.session.client_name ++ codes "\"."))).world
        → ((gh : FileHandle)
            → find handle_order gh st'.session.open_files ≡ (
                if same handle_order fh gh
                then none
                else find handle_order gh st.session.open_files))
        → write_message P fh message st' ≡ (throw invalid_file_handle, st')
        → close_file P fh st' ≡ (throw invalid_file_handle, st')
        → Closes fh message st

  -- In a sound session, close_file of a handle that is not open throws and changes nothing. Of an open
  -- one it returns, with "Log closed by" and the client's name appended to the file of the handle's
  -- object and that object's pointer released; the other handles stay, and afterwards both a message
  -- for that handle and another close_file of it throw and change nothing.
  pub close_file_lem :
      (fh : FileHandle) (message : Bytes) (st : State P) → IsSound P st → Closes fh message st
  close_file_lem fh message st s = go (write_message-Writes P st fh (closed_by P st) s)
    where
      go :
          Writes P st fh (closed_by P st) (write_message P fh (closed_by P st) st)
          → Closes fh message st
      go (unknown e q) = not_open e (close_unknown P st fh e)
      go (wrote a o e there q) =
          let st' = erased P (logged P st o (closed_by P st)) fh a in
          let gone : find handle_order fh st'.session.open_files ≡ none = ground (
            arith,
            find-erase handle_order fh fh st.session.open_files,
            same_refl handle_order fh,
          ) in
          closed a o st' e there (close_open P st fh a o e there) refl
            (λ gh. find-erase handle_order fh gh st.session.open_files)
            (write_invalid P st' fh message gone) (close_unknown P st' fh gone)

  -- Every handle of a list is open.
  AreOpen : Map FileHandle Pointer → Map FileHandle Pointer → Type 0
  AreOpen [] files = Unit
  AreOpen ((fh, f) ∷ rest) files =
      ((g : Pointer) × (find handle_order fh files ≡ some g)) × AreOpen rest files

  AreOpen-cons :
      (rest files : Map FileHandle Pointer) (entry : FileHandle × Pointer)
      → AreOpen rest files
      → AreOpen rest (entry ∷ files)
  unfolding AreOpen find
  AreOpen-cons [] files entry h = h
  AreOpen-cons ((fh, f) ∷ rest) files (gh, g) ((u, e), h) =
      (found (Bool-cases (same handle_order gh fh)), AreOpen-cons rest files (gh, g) h)
    where
      found :
          (same handle_order gh fh ≡ true) ⊎ (same handle_order gh fh ≡ false)
          → (v : Pointer) × (find handle_order fh ((gh, g) ∷ files) ≡ some v)
      found (inl hit) = (g, ground (arith, hit))
      found (inr miss) = (u, ground (arith, miss, e))

  AreOpen-refl : (files : Map FileHandle Pointer) → AreOpen files files
  unfolding AreOpen find
  AreOpen-refl [] = tt
  AreOpen-refl ((fh, f) ∷ files) = (
    (f, ground (arith, same_refl handle_order fh)),
    AreOpen-cons files files (fh, f) (AreOpen-refl files),
  )

  -- One line with the text for each handle of a list, in the file of the handle's object.
  pub Says : Bytes → Map FileHandle Pointer → State P → State P → Type 0
  Says text [] st st' = st' ≡ st
  Says text ((fh, f) ∷ files) st st' =
      (a : ℕ) × (o : LogFile) × (find handle_order fh st.session.open_files ≡ some (some a))
      × (get_elem? st.world.objects a ≡ some o)
      × Says text files (logged P st o text) st'

  write_farewells-Says :
      (files : Map FileHandle Pointer) (st : State P)
      → IsSound P st
      → AreOpen files st.session.open_files
      → (st' : State P) × (write_farewells P files st ≡ (ok tt, st'))
        × (st'.session ≡ st.session)
        × Says (codes "Disconnected from logsvc daemon.") files st st'
  unfolding AreOpen write_farewells Says
  write_farewells-Says [] st s h = (st, refl, refl, refl)
  write_farewells-Says ((fh, f) ∷ files) st s ((g, e), h) =
      let (a, o, is_a, there) = s.valid.files_live fh g e in
      let rest =
        write_farewells-Says files (logged P st o farewell) (logged-IsSound P st o farewell s) h in
      let e' : find handle_order fh st.session.open_files ≡ some (some a) = cc in
      (
        rest.0,
        rw (write_open P st fh farewell a o e' there) rest.1,
        rest.2,
        (a, o, e', there, rest.3),
      )

  -- In a sound session, disconnect_client with the session's own client handle returns, leaves the
  -- session alone, and appends one line "Disconnected from logsvc daemon." to the file of the object of
  -- each open handle, in the order of the handles, and does nothing else. With any other handle it
  -- throws and changes nothing.
  pub disconnect_client_lem :
      (client : ClientHandle) (st : State P)
      → IsSound P st
      → ((client_handle_eq client st.session.client_handle ≡ true)
          × (st' : State P) × (disconnect_client P client st ≡ (ok tt, st'))
          × (st'.session ≡ st.session)
          × Says (codes "Disconnected from logsvc daemon.") st.session.open_files st st')
        ⊎ ((client_handle_eq client st.session.client_handle ≡ false)
            × (disconnect_client P client st ≡ (throw wrong_client_handle, st)))
  unfolding disconnect_client
  disconnect_client_lem client st s =
      let f =
        write_farewells-Says st.session.open_files st s (AreOpen-refl st.session.open_files) in
      elim (Bool-cases (client_handle_eq client st.session.client_handle)) [
        | inl right ↦ inl (right, f.0, rw right f.1, f.2, f.3)
        | inr wrong ↦ inr (wrong, rw wrong)
      ]

  abbrev pub begun : World P → RealSession
  begun w = record {
    file_handle_counter = 1;
    open_filehandles = [];
    open_files = [];
    client_name = [];
    client_address = [];
    client_handle = client_handle_of ((w.handle_counter + 1) % 2 ^ 32);
  }

  no_handle : (p : FilePath) → find {V = FileHandle} P.path_order p [] ≡ none
  unfolding find
  no_handle p = refl

  pub begun-IsValid : (w w' : World P) → IsValid P (record { session = begun w; world = w' })
  unfolding find
  begun-IsValid w w' = record {
    counter_pos = omega arith;
    handles_below = λ p fh h. cc;
    handles_distinct = λ p q fh gh h k e. cc;
    files_below = λ fh f h. cc;
    files_live = λ fh f h. cc;
    files_located = λ p fh a o h k there. cc;
  }

  -- A session that has just been constructed, in a world whose collection is right, is sound, and
  -- has no handle yet.
  pub construct-IsSound :
      (w : World P)
      → IsCollected P w
      → (s : RealSession) × (w' : World P) × (construct P w ≡ (ok s, w'))
        × IsSound P (record { session = s; world = w' })
        × ((p : FilePath) → find P.path_order p s.open_filehandles ≡ none)
  unfolding construct generate_client_handle
  construct-IsSound w c =
      let s = begun w in
      let w' = record w { handle_counter = (w.handle_counter + 1) % 2 ^ 32 } in
      let shared = IsCollected-Grows P w w' (record { keeps = λ a o h. (o, h, refl) }) refl c in
      (s, w', refl, record { valid = begun-IsValid w w'; shared = shared }, λ p. no_handle p)
