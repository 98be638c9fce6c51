-- ===== src/Daemon/Collection/Cases.antt =====
-- What LogFileCollection::open_file can do, case by case, and what it leaves alone.
use logsvc.Common.{
  ℕ, ◌+◌, ◌<◌, ◌≡◌, refl, ap, sym, Bool, true, false, inl, inr, Option, none, some, [], ◌∷◌, ◌++◌,
  length, get_elem?, set, ltb, if◌then◌else◌, arith, Option-cases, Bool-cases, ltb→lt,
}
use logsvc.Common.Map.{find, assign}
use logsvc.Daemon.Collection.{open_file, lock, reuse_or_open}
use logsvc.Daemon.LogFile.{allocate, acquire, construct}
use logsvc.Daemon.World.{World, LogFile, Pointer}
use logsvc.Errors.{FilePath, Exception, Result, ok, throw, fault}
use logsvc.Platform.{Platform, value_or}

abbrev pub one_more : LogFile → LogFile
one_more o = record o { owners = o.owners + 1 }

abbrev pub new_object : FilePath → LogFile
new_object p = record { filepath = p; owners = 1 }

module _ (P : Platform) (p : FilePath) (w : World P) where
  -- The disk after the constructor of a LogFile: a path that is there is left alone.
  abbrev pub touched : Bool → P.Disk
  touched there = if there then w.disk else P.create w.disk p

  -- The four ways in which the call can end.
  pub data Opens (r : Result ℕ × World P) : Type 0 where
    -- The path's object is still owned: one more pointer to it.
    reused :
        (a : ℕ) (o : LogFile)
        → find P.path_order p w.collection ≡ some (some a)
        → get_elem? w.objects a ≡ some o
        → 0 < o.owners
        → r ≡ (ok a, record w { objects = set w.objects a (one_more o) })
        → Opens r
    -- A new object for the path, which the collection remembers.
    created :
        (there : Bool)
        → P.exists w.disk p ≡ ok there
        → r ≡ (
          ok (length w.objects),
          record w {
            disk = touched there;
            objects = w.objects ++ new_object p ∷ [];
            collection = assign P.path_order p (some (length w.objects)) w.collection;
          },
        )
        → Opens r
    -- The file system does not tell whether the path is there.
    refused : (e : Exception) → P.exists w.disk p ≡ throw e → r ≡ (throw e, w) → Opens r
    crashed : P.exists w.disk p ≡ fault → r ≡ (fault, w) → Opens r

  fresh-Opens : (there : Result Bool) → P.exists w.disk p ≡ there → Opens (reuse_or_open P none p w)
  unfolding reuse_or_open allocate construct
  fresh-Opens (ok true) e = created true e (rw e)
  fresh-Opens (ok false) e = created false e (rw e)
  fresh-Opens (throw x) e = refused x e (rw e)
  fresh-Opens fault e = crashed e (rw e)

  -- The pointer that egen::lookup returns, followed.
  follow :
      (f : Pointer)
      → value_or none (find P.path_order p w.collection) ≡ f
      → Opens (reuse_or_open P (lock P f w) p w)
  unfolding lock reuse_or_open acquire
  follow none e = fresh-Opens _ refl
  follow (some a) e = elim (Option-cases (get_elem? w.objects a)) [
    | inl gone ↦ rw (gone, lock) (fresh-Opens _ refl)
    | inr (o, there) ↦ elim (Bool-cases (ltb 0 o.owners)) [
      | inl owned ↦
          reused a o (pointer_of (find P.path_order p w.collection) a e) there (ltb→lt _ _ owned)
            (ground arith)
      | inr dead ↦ rw (there, lock, dead) (fresh-Opens _ refl)
    ]
  ]
    where
      pointer_of : (o : Option Pointer) (a : ℕ) → value_or none o ≡ some a → o ≡ some (some a)
      pointer_of none a h = cc
      pointer_of (some f) a h = ap some h

  pub open_file-Opens : Opens (open_file P p w)
  unfolding open_file
  open_file-Opens =
      follow (P.lookup FilePath Pointer P.path_order p w.collection none)
        (sym (P.lookup_lem _ _ _ _ _ _))
