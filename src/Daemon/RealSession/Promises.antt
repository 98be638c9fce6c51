-- ===== src/Daemon/RealSession/Promises.antt =====
-- What a client may rely on of its file handles.
use logsvc.Common.{
  ℕ, ◌+◌, ◌<◌, ◌^◌, ◌≡◌, ◌≢◌, ◌∙◌, ap, sym, subst, Bool, true, false, ◌⊎◌, inl, inr, some, List,
  length, get_elem?, arith,
}
use logsvc.Common.Map.{find, same}
use logsvc.Common.Text.{Bytes}
use logsvc.Daemon.RealSession.{State, write_message, open_file, opened_by, invalid_file_handle}
use logsvc.Daemon.RealSession.Closing.{write_message-Writes, Writes, wrote, unknown, logged-IsSound}
use logsvc.Daemon.RealSession.Invariant.{IsSound, logged, write_open}
use logsvc.Daemon.RealSession.OpenFile.{Ends, opened, failed, died, open_file-Ends}
use logsvc.Daemon.RealSession.Requests.{Request, performs, KeepsAll, performs-KeepsAll}
use logsvc.Daemon.World.{LogFile}
use logsvc.Errors.{FilePath, Result, ok, throw}
use logsvc.Log.Handles.{FileHandle, handle_order}
use logsvc.Platform.{Platform}

module _ (P : Platform) where
  -- What a call of open_file that returned leaves behind.
  pub record Opened (p : FilePath) (fh : FileHandle) (before after : State P) : Type 0 where
    pub sound : IsSound P after
    pub named : find P.path_order p after.session.open_filehandles ≡ some fh
    pub address : ℕ
    pub object : LogFile
    pub open_on : find handle_order fh after.session.open_files ≡ some (some address)
    pub there : get_elem? after.world.objects address ≡ some object
    pub for_path : same P.path_order object.filepath p ≡ true
    pub kept :
        (q : FilePath) (gh : FileHandle)
        → find P.path_order q before.session.open_filehandles ≡ some gh
        → find P.path_order q after.session.open_filehandles ≡ some gh
    pub counted : after.session.file_handle_counter < before.session.file_handle_counter + 2

  pub open_file-Opened :
      (p : FilePath) (fh : FileHandle) (st st' : State P)
      → IsSound P st
      → st.session.file_handle_counter + 1 < 2 ^ 32
      → open_file P p st ≡ (ok fh, st')
      → Opened p fh st st'
  open_file-Opened p fh st st' s room e = go _ e (open_file-Ends P p st s room)
    where
      go :
          (r : Result FileHandle × State P)
          → r ≡ (ok fh, st')
          → Ends P p st s room r
          → Opened p fh st st'
      go r e (opened gh u a o sound g facts file there path q) =
          let is : (ok gh, logged P u o (opened_by P u)) ≡ (ok fh, st') = sym q ∙ e in
          let same_handle : gh ≡ fh = ground (arith, is) in
          subst (λ (v : State P). Opened p fh st v)
            (ap (λ (t : Result FileHandle × State P). t.1) is)
            (subst (λ (h : FileHandle). Opened p h st (logged P u o (opened_by P u))) same_handle
              record {
                sound = logged-IsSound P u o (opened_by P u) sound;
                named = facts.named;
                address = a;
                object = o;
                open_on = file;
                there = there;
                for_path = path;
                kept = facts.stable;
                counted = facts.counted;
              })
      go r e (failed x gh u h sound facts alike q) = ground (arith, sym q ∙ e)
      go r e (died gh u h sound facts same q) = ground (arith, sym q ∙ e)

  -- In a sound session with room for another handle: once open_file has returned a handle for a path,
  -- every later open_file of that path returns the same handle, whatever requests came in between
  -- and whether the file has been closed, as long as the counter does not wrap around and the file
  -- system can tell whether the path is there.
  pub reopen_lem :
      (p : FilePath) (fh : FileHandle) (st st' : State P) (rs : List Request) (there : Bool)
      → IsSound P st
      → st.session.file_handle_counter + length rs + 3 < 2 ^ 32
      → open_file P p st ≡ (ok fh, st')
      → P.exists (performs P rs st').world.disk p ≡ ok there
      → (open_file P p (performs P rs st')).0 ≡ ok fh
  reopen_lem p fh st st' rs there s room e x =
      let o = open_file-Opened p fh st st' s (omega arith) e in
      let o_counted = o.counted in
      let k = performs-KeepsAll P rs st' o.sound (omega arith) in
      let k_counted = k.counted in
      let r : (performs P rs st').session.file_handle_counter + 1 < 2 ^ 32 = omega arith in
      go k.sound r (k.stable p fh o.named) (open_file-Ends P p (performs P rs st') k.sound r)
    where
      go :
          (later : IsSound P (performs P rs st'))
          (r : (performs P rs st').session.file_handle_counter + 1 < 2 ^ 32)
          → find P.path_order p (performs P rs st').session.open_filehandles ≡ some fh
          → Ends P p (performs P rs st') later r (open_file P p (performs P rs st'))
          → (open_file P p (performs P rs st')).0 ≡ ok fh
      go later r known (opened gh u a o sound g facts file is path q) =
          let h = facts.stable p fh known in ground (arith, h, facts.named, q)
      go later r known (failed y gh u h sound facts alike q) = ground (arith, h, x)
      go later r known (died gh u h sound facts same q) = ground (arith, h, x)

  -- In a sound session, as long as the counter does not wrap around: if open_file has returned a
  -- handle for a path, and after any requests returns one for a path that is not the same, then the
  -- two handles differ.
  pub distinct_lem :
      (p q : FilePath) (fh gh : FileHandle) (st st' st'' : State P) (rs : List Request)
      → IsSound P st
      → st.session.file_handle_counter + length rs + 3 < 2 ^ 32
      → open_file P p st ≡ (ok fh, st')
      → open_file P q (performs P rs st') ≡ (ok gh, st'')
      → same P.path_order p q ≡ false
      → fh.fh ≢ gh.fh
  distinct_lem p q fh gh st st' st'' rs s room e e' differ h =
      let o = open_file-Opened p fh st st' s (omega arith) e in
      let o_counted = o.counted in
      let k = performs-KeepsAll P rs st' o.sound (omega arith) in
      let k_counted = k.counted in
      let o' = open_file-Opened q gh (performs P rs st') st'' k.sound (omega arith) e' in
      let alike =
        o'.sound.valid.handles_distinct p q fh gh (o'.kept p fh (k.stable p fh o.named)) o'.named
          h in
      cc

  -- In a sound session with room for another handle, the handle that open_file returns is open: the
  -- next message for it is appended as one line to a file that is the path.
  pub open-write_lem :
      (p : FilePath) (fh : FileHandle) (message : Bytes) (st st' : State P)
      → IsSound P st
      → st.session.file_handle_counter + 1 < 2 ^ 32
      → open_file P p st ≡ (ok fh, st')
      → (o : LogFile) × (same P.path_order o.filepath p ≡ true)
        × (write_message P fh message st' ≡ (ok tt, logged P st' o message))
  open-write_lem p fh message st st' s room e =
      let o = open_file-Opened p fh st st' s room e in
      (o.object, o.for_path, write_open P st' fh message o.address o.object o.open_on o.there)

  -- In a sound session, as long as the counter does not wrap around: after any requests a handle that
  -- open_file returned for a path still writes to that path. A message for it is refused, which
  -- leaves the session and the disk alone, or is appended as one line to a file that is the path.
  pub write_lem :
      (p : FilePath) (fh : FileHandle) (message : Bytes) (st st' : State P) (rs : List Request)
      → IsSound P st
      → st.session.file_handle_counter + length rs + 3 < 2 ^ 32
      → open_file P p st ≡ (ok fh, st')
      → (write_message P fh message (performs P rs st')
          ≡ (throw invalid_file_handle, performs P rs st'))
        ⊎ ((o : LogFile) × (same P.path_order o.filepath p ≡ true)
            × (write_message P fh message (performs P rs st')
                ≡ (ok tt, logged P (performs P rs st') o message)))
  write_lem p fh message st st' rs s room e =
      let o = open_file-Opened p fh st st' s (omega arith) e in
      let o_counted = o.counted in
      let k = performs-KeepsAll P rs st' o.sound (omega arith) in
      go k (k.stable p fh o.named) (write_message-Writes P (performs P rs st') fh message k.sound)
    where
      go :
          (k : KeepsAll P rs st')
          → find P.path_order p (performs P rs st').session.open_filehandles ≡ some fh
          → Writes P (performs P rs st') fh message (write_message P fh message (performs P rs st'))
          → (write_message P fh message (performs P rs st')
              ≡ (throw invalid_file_handle, performs P rs st'))
            ⊎ ((o : LogFile) × (same P.path_order o.filepath p ≡ true)
                × (write_message P fh message (performs P rs st')
                    ≡ (ok tt, logged P (performs P rs st') o message)))
      go k known (wrote a o is_open there q) =
          inr (o, k.sound.valid.files_located p fh a o known is_open there, q)
      go k known (unknown h q) = inl q
