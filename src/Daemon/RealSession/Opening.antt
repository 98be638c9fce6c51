-- ===== src/Daemon/RealSession/Opening.antt =====
-- open_file_if_necessary, and so open_file, keeps the session's books.
use logsvc.Common.{
  ℕ, ◌≡◌, refl, ap, subst, true, false, ◌⊎◌, inl, inr, none, some, get_elem?, if◌then◌else◌, arith,
  Option-cases, Bool-cases,
}
use logsvc.Common.Map.{find, insert, find-insert, same, same_refl, same_trans}
use logsvc.Daemon.Collection as Collection
use logsvc.Daemon.Collection.Cases.{Opens, reused, created, refused, open_file-Opens}
use logsvc.Daemon.Collection.Growth.{
  IsCollected, Grows, Grows-refl, Holds, open_file-Grows, open_file-IsCollected, open_file-Holds,
}
use logsvc.Daemon.RealSession.{State, open_file_if_necessary}
use logsvc.Daemon.RealSession.Invariant.{IsValid, IsSound, IsValid-Grows}
use logsvc.Daemon.World.{World, LogFile, Pointer}
use logsvc.Errors.{FilePath, Exception, Result, ok, throw, fault}
use logsvc.Log.Handles.{FileHandle, handle_order, handles_iff}
use logsvc.Platform.{Platform}

module _ (P : Platform) (p : FilePath) (fh : FileHandle) (st : State P) where
  -- The state after the object at `a` has been opened for `fh`.
  abbrev with_file : ℕ → World P → State P
  with_file a w = record {
    session = record st.session {
      open_files = insert handle_order fh (some a) st.session.open_files;
    };
    world = w;
  }

  module _ (w : World P) (a : ℕ) (v : IsValid P (record { session = st.session; world = w }))
      (known : find P.path_order p st.session.open_filehandles ≡ some fh)
      (unopened : find handle_order fh st.session.open_files ≡ none) (held : Holds P w p a) where
    found_file :
        (gh : FileHandle)
        → find handle_order gh (with_file a w).session.open_files ≡ (
            if same handle_order fh gh
            then some (some a)
            else find handle_order gh st.session.open_files)
    found_file gh = find-insert handle_order fh gh (some a) st.session.open_files unopened

    live :
        (gh : FileHandle) (f : Pointer)
        → find handle_order gh (with_file a w).session.open_files ≡ some f
        → (same handle_order fh gh ≡ true) ⊎ (same handle_order fh gh ≡ false)
        → (b : ℕ) × (o : LogFile) × (f ≡ some b) × (get_elem? w.objects b ≡ some o)
    live gh f h (inl hit) = (a, held.object, ground (arith, found_file gh), held.there)
    live gh f h (inr miss) = v.files_live gh f (ground (arith, found_file gh))

    located :
        (q : FilePath) (gh : FileHandle) (b : ℕ) (o : LogFile)
        → find P.path_order q st.session.open_filehandles ≡ some gh
        → find handle_order gh (with_file a w).session.open_files ≡ some (some b)
        → get_elem? w.objects b ≡ some o
        → (same handle_order fh gh ≡ true) ⊎ (same handle_order fh gh ≡ false)
        → same P.path_order o.filepath q ≡ true
    located q gh b o h k there (inl hit) =
        let e : o ≡ held.object = ground (arith, found_file gh, held.there) in
        let r : same P.path_order p q ≡ true =
          v.handles_distinct p q fh gh known h ((handles_iff fh gh).0 hit) in
        rw e (same_trans P.path_order held.object.filepath p q held.for_path r)
    located q gh b o h k there (inr miss) =
        v.files_located q gh b o h (ground (arith, found_file gh)) there

    with_file-IsValid : IsValid P (with_file a w)
    with_file-IsValid = record {
      counter_pos = v.counter_pos;
      handles_below = v.handles_below;
      handles_distinct = v.handles_distinct;
      files_below = λ gh f h.
          ground (
            arith,
            found_file gh,
            handles_iff fh gh,
            v.handles_below p fh known,
            v.files_below gh f,
          );
      files_live = λ gh f h. live gh f h (Bool-cases (same handle_order fh gh));
      files_located =
          λ q gh b o h k there. located q gh b o h k there (Bool-cases (same handle_order fh gh));
    }

  -- How open_file_if_necessary can end, for a handle that stands for the path.
  pub data Ready (r : Result (Unit {0}) × State P) : Type 0 where
    ready :
        (st' : State P) (a : ℕ) (o : LogFile)
        → IsSound P st'
        → Grows P st.world st'.world
        → st'.session ≡ record st.session { open_files = st'.session.open_files }
        → find handle_order fh st'.session.open_files ≡ some (some a)
        → get_elem? st'.world.objects a ≡ some o
        → same P.path_order o.filepath p ≡ true
        → r ≡ (ok tt, st')
        → Ready r
    not_ready : (e : Exception) → P.exists st.world.disk p ≡ throw e → r ≡ (throw e, st) → Ready r
    crashed : P.exists st.world.disk p ≡ fault → r ≡ (fault, st) → Ready r

  module _ (s : IsSound P st)
      (known : find P.path_order p st.session.open_filehandles ≡ some fh) where
    already :
        (f : Pointer)
        → find handle_order fh st.session.open_files ≡ some f
        → Ready (open_file_if_necessary P fh p st)
    unfolding open_file_if_necessary
    already f e =
        let (a, o, is_a, there) = s.valid.files_live fh f e in
        let e' : find handle_order fh st.session.open_files ≡ some (some a) = cc in
        ready st a o s (Grows-refl P st.world) refl e' there
          (s.valid.files_located p fh a o known e' there) (rw e)

    got_file :
        (a : ℕ) (w : World P)
        → find handle_order fh st.session.open_files ≡ none
        → Collection.open_file P p st.world ≡ (ok a, w)
        → Ready (open_file_if_necessary P fh p st)
    unfolding open_file_if_necessary
    got_file a w unopened e =
        let q = ap (λ (t : Result ℕ × World P). t.1) e in
        let g = subst (Grows P st.world) q (open_file-Grows P p st.world) in
        let c = subst (IsCollected P) q (open_file-IsCollected P p st.world s.shared) in
        let held =
          subst (λ (u : World P). Holds P u p a) q
            (open_file-Holds P p st.world a s.shared (ap (λ (t : Result ℕ × World P). t.0) e)) in
        let v = IsValid-Grows P st.session st.world w g s.valid in
        ready (with_file a w) a held.object
          (record { valid = with_file-IsValid w a v known unopened held; shared = c }) g refl
          (ground (arith, found_file w a v known unopened held fh, same_refl handle_order fh))
          held.there held.for_path (rw (unopened, open_file_if_necessary, e))

    anew :
        find handle_order fh st.session.open_files ≡ none
        → Opens P p st.world (Collection.open_file P p st.world)
        → Ready (open_file_if_necessary P fh p st)
    unfolding open_file_if_necessary
    anew unopened (reused a o c there owned e) = got_file a _ unopened e
    anew unopened (created was x e) = got_file _ _ unopened e
    anew unopened (refused x h e) = not_ready x h (rw (unopened, open_file_if_necessary, e))
    anew unopened (Opens.crashed h e) = crashed h (rw (unopened, open_file_if_necessary, e))

    pub open_file_if_necessary-Ready : Ready (open_file_if_necessary P fh p st)
    open_file_if_necessary-Ready =
        elim (Option-cases (find handle_order fh st.session.open_files)) [
          | inl unopened ↦ anew unopened (open_file-Opens P p st.world)
          | inr (f, e) ↦ already f e
        ]
