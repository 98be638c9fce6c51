-- ===== src/Daemon/RealSession/OpenFile.antt =====
-- open_file as a whole: how it ends, and what the session's books say then.
use logsvc.Common.{
  ℕ, ◌+◌, ◌<◌, ◌^◌, ◌≡◌, refl, ◌∙◌, ap, sym, subst, true, inl, inr, none, some, get_elem?, arith,
  Option-cases,
}
use logsvc.Common.Map.{find, find-insert, same, same_refl, find-same}
use logsvc.Daemon.Collection.Growth.{Grows}
use logsvc.Daemon.RealSession.{
  RealSession, State, open_file, open_file_if_necessary, get_filehandle_for_path, opened_by,
}
use logsvc.Daemon.RealSession.Invariant.{IsSound, logged, write_open}
use logsvc.Daemon.RealSession.NewHandle.{with_new, handle_known, handle_new, with_new-IsValid}
use logsvc.Daemon.RealSession.Opening.{
  Ready, ready, not_ready, crashed, open_file_if_necessary-Ready,
}
use logsvc.Daemon.World.{World, LogFile}
use logsvc.Errors.{FilePath, Exception, Result, ok, throw, fault}
use logsvc.Log.Handles.{FileHandle, handle_order, file_handle_of}
use logsvc.Platform.{Platform}

module _ (P : Platform) (p : FilePath) (st : State P) where
  -- The path has a handle, and the handles of the paths stay.
  pub record Named (fh : FileHandle) (st' : State P) : Type 0 where
    pub named : find P.path_order p st'.session.open_filehandles ≡ some fh
    pub stable :
        (q : FilePath) (gh : FileHandle)
        → find P.path_order q st.session.open_filehandles ≡ some gh
        → find P.path_order q st'.session.open_filehandles ≡ some gh
    pub counted : st'.session.file_handle_counter < st.session.file_handle_counter + 2
    pub same_name : st'.session.client_name ≡ st.session.client_name
    pub same_address : st'.session.client_address ≡ st.session.client_address
    pub same_client : st'.session.client_handle ≡ st.session.client_handle

  pub record First : Type 0 where
    pub handle : FileHandle
    pub after : State P
    pub runs : get_filehandle_for_path P p st ≡ (ok handle, after)
    pub sound : IsSound P after
    pub facts : Named handle after
    pub same_world : after.world ≡ st.world

  module _ (s : IsSound P st) (room : st.session.file_handle_counter + 1 < 2 ^ 32) where
    first_known :
        (fh : FileHandle) → find P.path_order p st.session.open_filehandles ≡ some fh → First
    first_known fh e = record {
      handle = fh;
      after = st;
      runs = handle_known P p st fh e;
      sound = s;
      facts = record {
        named = e;
        stable = λ q gh h. h;
        counted = omega arith;
        same_name = refl;
        same_address = refl;
        same_client = refl;
      };
      same_world = refl;
    }

    first_new : find P.path_order p st.session.open_filehandles ≡ none → First
    first_new e =
        let fh = file_handle_of st.session.file_handle_counter in
        let found =
          λ (q : FilePath). find-insert P.path_order p q fh st.session.open_filehandles e in
        record {
          handle = fh;
          after = with_new P p st;
          runs = handle_new P p st e;
          sound = record { valid = with_new-IsValid P p st s.valid e room; shared = s.shared };
          facts = record {
            named = ground (arith, found p, same_refl P.path_order p);
            stable = λ q gh h.
                ground (arith, found q, find-same P.path_order p q st.session.open_filehandles);
            counted = omega arith;
            same_name = refl;
            same_address = refl;
            same_client = refl;
          };
          same_world = refl;
        }

    first : First
    first = elim (Option-cases (find P.path_order p st.session.open_filehandles)) [
      | inl e ↦ first_new e
      | inr (fh, e) ↦ first_known fh e
    ]

    -- The ways in which open_file can end: the path's handle is open, on an object for the path, and
    -- the opening has been logged; or the file system did not tell whether the path is there.
    pub data Ends (r : Result FileHandle × State P) : Type 0 where
      opened :
          (fh : FileHandle) (st' : State P) (a : ℕ) (o : LogFile)
          → IsSound P st'
          → Grows P st.world st'.world
          → Named fh st'
          → find handle_order fh st'.session.open_files ≡ some (some a)
          → get_elem? st'.world.objects a ≡ some o
          → same P.path_order o.filepath p ≡ true
          → r ≡ (ok fh, logged P st' o (opened_by P st'))
          → Ends r
      failed :
          (e : Exception) (fh : FileHandle) (st' : State P)
          → P.exists st.world.disk p ≡ throw e
          → IsSound P st'
          → Named fh st'
          → st'.world ≡ st.world
          → r ≡ (throw e, st')
          → Ends r
      died :
          (fh : FileHandle) (st' : State P)
          → P.exists st.world.disk p ≡ fault
          → IsSound P st'
          → Named fh st'
          → st'.world ≡ st.world
          → r ≡ (fault, st')
          → Ends r

    finish :
        (f : First)
        → Ready P p f.handle f.after (open_file_if_necessary P f.handle p f.after)
        → Ends (open_file P p st)
    unfolding open_file
    finish f (ready st' a o sound g same_session file there path e) =
        opened f.handle st' a o sound (subst (λ (w : World P). Grows P w st'.world) f.same_world g)
          (record {
            named =
                ap (λ (t : RealSession). find P.path_order p t.open_filehandles) same_session
                ∙ f.facts.named;
            stable = λ q gh h.
                ap (λ (t : RealSession). find P.path_order q t.open_filehandles) same_session
                ∙ f.facts.stable q gh h;
            counted =
                subst
                  (λ (t : RealSession). t.file_handle_counter < st.session.file_handle_counter + 2)
                  (sym same_session) f.facts.counted;
            same_name = ap (λ (t : RealSession). t.client_name) same_session ∙ f.facts.same_name;
            same_address =
                ap (λ (t : RealSession). t.client_address) same_session ∙ f.facts.same_address;
            same_client =
                ap (λ (t : RealSession). t.client_handle) same_session ∙ f.facts.same_client;
          })
          file there path
          (rw (f.runs, e, write_open P st' f.handle (opened_by P st') a o file there))
    finish f (not_ready x h e) =
        failed x f.handle f.after
          (subst (λ (w : World P). P.exists w.disk p ≡ throw x) f.same_world h) f.sound f.facts
          f.same_world (rw (f.runs, e))
    finish f (crashed h e) =
        died f.handle f.after (subst (λ (w : World P). P.exists w.disk p ≡ fault) f.same_world h)
          f.sound f.facts f.same_world (rw (f.runs, e))

    pub open_file-Ends : Ends (open_file P p st)
    open_file-Ends =
        finish first
          (open_file_if_necessary-Ready P p first.handle first.after first.sound first.facts.named)
