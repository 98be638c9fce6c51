-- ===== src/Daemon/Collection.antt =====
-- logsvc_daemon/LogFileCollection.cpp: one LogFile object for a path as long as somebody owns it.
pub mod Cases
pub mod Growth
use logsvc.Common.{ℕ, Option, none, some, get_elem?, if◌then◌else◌, ltb}
use logsvc.Common.Map.{assign}
use logsvc.Daemon.LogFile.{allocate, acquire}
use logsvc.Daemon.World.{World, LogFile, Pointer}
use logsvc.Errors.{FilePath, ok}
use logsvc.Exec.{Exec, pure, ◌>>=◌}
use logsvc.Platform.{Platform}

module _ (P : Platform) where
  lock_object : ℕ → Option LogFile → Pointer
  lock_object address none = none
  lock_object address (some o) = if ltb 0 o.owners then some address else none

  -- weakfile.lock(), before the new pointer is counted
  unfoldable pub lock : Pointer → World P → Pointer
  unfolding lock_object
  lock none w = none
  lock (some address) w = lock_object address (get_elem? w.objects address)

  reuse_or_open : Pointer → FilePath → Exec (World P) ℕ
  reuse_or_open (some address) p w = (ok address, acquire P address w)
  reuse_or_open none p w =
      (do
        address ← allocate P p
        λ u. (
          ok address,
          record u { collection = assign P.path_order p (some address) u.collection },
        ))
        w

  -- The pointer that is returned owns the object.
  unfoldable pub open_file : FilePath → Exec (World P) ℕ
  unfolding reuse_or_open
  open_file p w =
      let weakfile = P.lookup FilePath Pointer P.path_order p w.collection none in
      reuse_or_open (lock weakfile w) p w
