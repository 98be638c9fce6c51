-- ===== src/Daemon/RealSession/Counting.antt =====
-- Every request keeps the count of the owners, whether it returns or throws.
use logsvc.Common.{
  ℕ, ◌+◌, ◌≡◌, refl, inl, inr, Option, none, some, [], ◌∷◌, get_elem?, arith, Option-cases,
  Bool-cases,
}
use logsvc.Common.Map.{Map, find, erase}
use logsvc.Common.Map.Total.{total-erase, IsUnique-erase}
use logsvc.Common.Text.{Bytes}
use logsvc.Daemon.Collection.Cases.{open_file-Opens}
use logsvc.Daemon.LogFile as LogFile
use logsvc.Daemon.RealSession.{
  State, write_message, write_line, get_timestamp, open_file, open_unless, open_file_if_necessary,
  get_filehandle_for_path, known_or_new, write_opened, close_file, write_closed, erase_found,
  release_pointer, disconnect_client, write_farewells, set_client_info, farewell, opened_by,
  closed_by,
}
use logsvc.Daemon.RealSession.Counted.{
  IsCounted, pointers, points_to, opened-IsCounted, release-owners,
}
use logsvc.Daemon.RealSession.Requests.{
  Request, opens, closes, writes, introduces, disconnects, perform,
}
use logsvc.Daemon.TimestampFactory as TimestampFactory
use logsvc.Daemon.World.{Pointer}
use logsvc.Errors.{FilePath, Result, ok, throw, fault}
use logsvc.Exec.{Exec, resume}
use logsvc.Log.Handles.{FileHandle, ClientHandle, handle_order, client_handle_eq}
use logsvc.Platform.{Platform}

module _ (P : Platform) (others : ℕ → ℕ) where
  after-IsCounted :
      {A B : Type 0} (r : Result A × State P) (k : A → Exec (State P) B)
      → IsCounted P others r.1
      → ((a : A) (st : State P) → IsCounted P others st → IsCounted P others (k a st).1)
      → IsCounted P others (resume k r).1
  after-IsCounted (ok a, st) k c h = h a st c
  after-IsCounted (throw e, st) k c h = c
  after-IsCounted (fault, st) k c h = c

  -- A write touches neither objects nor handles.
  write_message-IsCounted :
      (fh : FileHandle) (message : Bytes) (st : State P)
      → IsCounted P others st
      → IsCounted P others (write_message P fh message st).1
  unfolding write_message write_line get_timestamp TimestampFactory.get_timestamp
      TimestampFactory.generate LogFile.write
  write_message-IsCounted fh message st c =
      line (P.lookup FileHandle Pointer handle_order fh st.session.open_files none)
    where
      line : (f : Pointer) → IsCounted P others (write_line P f message st).1
      line none = c
      line (some a) = elim (Option-cases (get_elem? st.world.objects a)) [
        | inl gone ↦ rw gone (record { unique = c.unique; owned = c.owned })
        | inr (o, there) ↦ rw there (record { unique = c.unique; owned = c.owned })
      ]

  get_filehandle_for_path-IsCounted :
      (p : FilePath) (st : State P)
      → IsCounted P others st
      → IsCounted P others (get_filehandle_for_path P p st).1
  unfolding get_filehandle_for_path known_or_new
  get_filehandle_for_path-IsCounted p st c = known (find P.path_order p st.session.open_filehandles)
    where
      known : (o : Option FileHandle) → IsCounted P others (known_or_new P o p st).1
      known none = record { unique = c.unique; owned = c.owned }
      known (some fh) = c

  open_file_if_necessary-IsCounted :
      (fh : FileHandle) (p : FilePath) (st : State P)
      → IsCounted P others st
      → IsCounted P others (open_file_if_necessary P fh p st).1
  unfolding open_file_if_necessary open_unless
  open_file_if_necessary-IsCounted fh p st c =
      elim (Option-cases (find handle_order fh st.session.open_files)) [
        | inl new ↦
            rw new (opened-IsCounted P others fh p st _ (open_file-Opens P p st.world) c new)
        | inr (f, e) ↦ rw e c
      ]

  open_file-IsCounted :
      (p : FilePath) (st : State P)
      → IsCounted P others st
      → IsCounted P others (open_file P p st).1
  unfolding open_file write_opened
  open_file-IsCounted p st c =
      after-IsCounted (get_filehandle_for_path P p st) _ (get_filehandle_for_path-IsCounted p st c)
        (λ fh t d.
          after-IsCounted (open_file_if_necessary P fh p t) _
            (open_file_if_necessary-IsCounted fh p t d)
            (λ x u e.
              after-IsCounted (write_message P fh (opened_by P u) u) _
                (write_message-IsCounted fh (opened_by P u) u e) (λ y v f. f)))

  erase_found-IsCounted :
      (fh : FileHandle) (st : State P)
      → IsCounted P others st
      → IsCounted P others (erase_found P (find handle_order fh st.session.open_files) fh st)
  unfolding erase_found release_pointer
  erase_found-IsCounted fh st c = by_found (find handle_order fh st.session.open_files) refl
    where
      by_found :
          (o : Option Pointer)
          → find handle_order fh st.session.open_files ≡ o
          → IsCounted P others (erase_found P o fh st)
      by_found none e = c
      by_found (some none) e = record {
        unique = IsUnique-erase handle_order fh st.session.open_files c.unique;
        owned = λ b. omega (
          arith,
          c.owned b,
          total-erase handle_order (points_to b) fh none st.session.open_files c.unique e,
        );
      }
      by_found (some (some a)) e = record {
        unique = IsUnique-erase handle_order fh st.session.open_files c.unique;
        owned =
            release-owners P st.world a
              (λ b. pointers b (erase handle_order fh st.session.open_files) + others b)
              (λ b. omega (
                arith,
                c.owned b,
                total-erase handle_order (points_to b) fh (some a) st.session.open_files c.unique e,
              ));
      }

  close_file-IsCounted :
      (fh : FileHandle) (st : State P)
      → IsCounted P others st
      → IsCounted P others (close_file P fh st).1
  unfolding close_file write_closed
  close_file-IsCounted fh st c =
      after-IsCounted (write_message P fh (closed_by P st) st) _
        (write_message-IsCounted fh (closed_by P st) st c) (λ x u d. erase_found-IsCounted fh u d)

  write_farewells-IsCounted :
      (files : Map FileHandle Pointer) (st : State P)
      → IsCounted P others st
      → IsCounted P others (write_farewells P files st).1
  unfolding write_farewells
  write_farewells-IsCounted [] st c = c
  write_farewells-IsCounted ((fh, f) ∷ files) st c =
      let rest = write_farewells-IsCounted files in
      after-IsCounted (write_message P fh farewell st) _ (write_message-IsCounted fh farewell st c)
        (λ x u d. rest u d)

  disconnect_client-IsCounted :
      (client : ClientHandle) (st : State P)
      → IsCounted P others st
      → IsCounted P others (disconnect_client P client st).1
  unfolding disconnect_client
  disconnect_client-IsCounted client st c =
      elim (Bool-cases (client_handle_eq client st.session.client_handle)) [
        | inl right ↦ rw right (write_farewells-IsCounted st.session.open_files st c)
        | inr wrong ↦ rw wrong c
      ]

  -- Each object is owned by as many pointers as before, and by those of the session.
  pub perform-IsCounted :
      (r : Request) (st : State P) → IsCounted P others st → IsCounted P others (perform P r st)
  unfolding perform set_client_info
  perform-IsCounted (opens p) st c = open_file-IsCounted p st c
  perform-IsCounted (closes fh) st c = close_file-IsCounted fh st c
  perform-IsCounted (writes fh message) st c = write_message-IsCounted fh message st c
  perform-IsCounted (introduces name address) st c = record { unique = c.unique; owned = c.owned }
  perform-IsCounted (disconnects client) st c = disconnect_client-IsCounted client st c
