-- ===== src/Daemon/RealSession/NewHandle.antt =====
-- get_filehandle_for_path keeps the session's books.
use logsvc.Common.{◌+◌, ◌<◌, ◌%◌, ◌^◌, ◌≡◌, none, some, if◌then◌else◌, arith}
use logsvc.Common.Map.{find, insert, find-insert, same, same_symm, same_trans}
use logsvc.Daemon.RealSession.{State, get_filehandle_for_path}
use logsvc.Daemon.RealSession.Invariant.{IsValid}
use logsvc.Daemon.World.{Pointer}
use logsvc.Errors.{FilePath, ok}
use logsvc.Log.Handles.{FileHandle, file_handle_of, handle_order}
use logsvc.Platform.{Platform}

module _ (P : Platform) (p : FilePath) (st : State P) where
  -- The state after a new handle has been given to `p`.
  abbrev pub with_new : State P
  with_new =
      let s = st.session in
      record st {
        session = record s {
          file_handle_counter = (s.file_handle_counter + 1) % 2 ^ 32;
          open_filehandles =
              insert P.path_order p (file_handle_of s.file_handle_counter) s.open_filehandles;
        };
      }

  abbrev new_handle : FileHandle
  new_handle = file_handle_of st.session.file_handle_counter

  pub handle_known :
      (fh : FileHandle)
      → find P.path_order p st.session.open_filehandles ≡ some fh
      → get_filehandle_for_path P p st ≡ (ok fh, st)
  unfolding get_filehandle_for_path
  handle_known fh e = rw e

  pub handle_new :
      find P.path_order p st.session.open_filehandles ≡ none
      → get_filehandle_for_path P p st ≡ (ok new_handle, with_new)
  unfolding get_filehandle_for_path
  handle_new e = rw e

  module _ (v : IsValid P st) (e : find P.path_order p st.session.open_filehandles ≡ none)
      (room : st.session.file_handle_counter + 1 < 2 ^ 32) where
    found_new :
        (q : FilePath)
        → find P.path_order q with_new.session.open_filehandles ≡ (
            if same P.path_order p q
            then some new_handle
            else find P.path_order q st.session.open_filehandles)
    found_new q = find-insert P.path_order p q new_handle st.session.open_filehandles e

    counter_new : with_new.session.file_handle_counter ≡ st.session.file_handle_counter + 1
    counter_new = omega arith

    new_not_open : (f : Pointer) → find handle_order new_handle st.session.open_files ≡ some f → ⊥
    new_not_open f h = ground (arith, v.files_below new_handle f h)

    pub with_new-IsValid : IsValid P with_new
    with_new-IsValid = record {
      counter_pos = omega (arith, counter_new);
      handles_below = λ q fh h. ground (arith, found_new q, counter_new, v.handles_below q fh);
      handles_distinct = λ q r fh gh h k same_fh. ground (
        arith,
        found_new q,
        found_new r,
        v.handles_below q fh,
        v.handles_below r gh,
        v.handles_distinct q r fh gh,
        same_symm P.path_order p q,
        same_trans P.path_order q p r,
      );
      files_below = λ fh f h. ground (arith, counter_new, v.files_below fh f h);
      files_live = v.files_live;
      files_located = λ q fh a o h k there.
          ground (arith, found_new q, v.files_located q fh a o, new_not_open (some a));
    }
