-- ===== src/Daemon/LogFile.antt =====
-- logsvc_daemon/LogFile.cpp, and the owning pointers to its objects. The mutex of an object is not
-- modelled, since the daemon runs its handlers on one thread.
use logsvc.Common.{
  ℕ, ◌+◌, ◌-◌, Bool, true, false, Option, none, some, List, [], ◌∷◌, ◌++◌, length, get_elem?, set,
}
use logsvc.Common.Text.{Bytes}
use logsvc.Daemon.World.{World, LogFile}
use logsvc.Errors.{FilePath, ok}
use logsvc.Exec.{Exec, pure, crash, lift, modify, ◌>>=◌, ◌>>◌}
use logsvc.Platform.{Platform}

module _ (P : Platform) where
  touch : Bool → FilePath → Exec (World P) (Unit {0})
  touch true p w = pure tt w
  touch false p w = (ok tt, record w { disk = P.create w.disk p })

  -- if (!boost::filesystem::exists(p)) { boost::filesystem::ofstream ost; ost.open(p); }
  unfoldable pub construct : FilePath → Exec (World P) (Unit {0})
  unfolding touch
  construct p w = (do there ← lift (P.exists w.disk p); touch there p) w

  write_to : Option LogFile → Bytes → Exec (World P) (Unit {0})
  write_to none s = crash
  write_to (some object) s = modify (λ w. record w { disk = P.append w.disk object.filepath s })

  -- LogFile::write on the object at an address
  unfoldable pub write : ℕ → Bytes → Exec (World P) (Unit {0})
  unfolding write_to
  write address s w = write_to (get_elem? w.objects address) s w

  -- new LogFile(p), owned by one pointer
  unfoldable pub allocate : FilePath → Exec (World P) ℕ
  allocate p = do
    construct p
    λ w. (
      ok (length w.objects),
      record w { objects = w.objects ++ record { filepath = p; owners = 1 } ∷ [] },
    )

  own : ℕ → Option LogFile → List LogFile → List LogFile
  own address none objects = objects
  own address (some o) objects = set objects address (record o { owners = o.owners + 1 })

  disown : ℕ → Option LogFile → List LogFile → List LogFile
  disown address none objects = objects
  disown address (some o) objects = set objects address (record o { owners = o.owners - 1 })

  -- One more pointer to the object.
  unfoldable pub acquire : ℕ → World P → World P
  unfolding own
  acquire address w = record w { objects = own address (get_elem? w.objects address) w.objects }

  -- One pointer to the object less.
  unfoldable pub release : ℕ → World P → World P
  unfolding disown
  release address w = record w { objects = disown address (get_elem? w.objects address) w.objects }
