-- ===== src/Daemon/Collection/Growth.antt =====
-- Objects stay where they are and keep their paths, whatever the sessions do, and the collection's
-- weak pointers stay right.
use logsvc.Common.{
  ℕ, ◌≡◌, refl, ◌∙◌, ap, subst, true, false, ◌⊎◌, inl, inr, some, List, [], ◌∷◌, ◌++◌, length,
  get_elem?, set, ◌==◌, if◌then◌else◌, arith, Bool-cases, get_elem?-set, get_elem?-append_old,
  get_elem?-append_new,
}
use logsvc.Common.Map.{find, assign, find-assign, same, same_refl}
use logsvc.Daemon.Collection.{open_file}
use logsvc.Daemon.Collection.Cases.{
  Opens, reused, created, refused, crashed, open_file-Opens, one_more, new_object,
}
use logsvc.Daemon.World.{World, LogFile, Pointer}
use logsvc.Errors.{FilePath, Result, ok}
use logsvc.Platform.{Platform}

module _ (P : Platform) where
  -- An object is on the heap, for the path.
  pub record Holds (w : World P) (p : FilePath) (a : ℕ) : Type 0 where
    pub object : LogFile
    pub there : get_elem? w.objects a ≡ some object
    pub for_path : same P.path_order object.filepath p ≡ true

  -- The collection's weak pointers are to objects for their paths.
  pub record IsCollected (w : World P) : Type 0 where
    pub collected :
        (p : FilePath) (f : Pointer)
        → find P.path_order p w.collection ≡ some f
        → (a : ℕ) × (f ≡ some a) × Holds w p a

  -- Every object of the first world is in the second, for the same path.
  pub record Grows (w w' : World P) : Type 0 where
    pub keeps :
        (a : ℕ) (o : LogFile)
        → get_elem? w.objects a ≡ some o
        → (o' : LogFile) × (get_elem? w'.objects a ≡ some o') × (o'.filepath ≡ o.filepath)

  pub Grows-refl : (w : World P) → Grows w w
  Grows-refl w = record { keeps = λ a o h. (o, h, refl) }

  pub Grows-trans : {u v w : World P} → Grows u v → Grows v w → Grows u w
  Grows-trans g h = record {
    keeps = λ a o e.
        let (o', e', p') = g.keeps a o e in
        let (o'', e'', p'') = h.keeps a o' e' in (o'', e'', p'' ∙ p');
  }

  pub Holds-Grows :
      {w w' : World P} (p : FilePath) (a : ℕ) → Grows w w' → Holds w p a → Holds w' p a
  Holds-Grows p a g h =
      let (o, e, q) = g.keeps a h.object h.there in
      record { object = o; there = e; for_path = rw q h.for_path }

  -- The owners of one object change.
  pub recount-Grows :
      (w w' : World P) (a : ℕ) (o o' : LogFile)
      → get_elem? w.objects a ≡ some o
      → o'.filepath ≡ o.filepath
      → w'.objects ≡ set w.objects a o'
      → Grows w w'
  recount-Grows w w' a o o' there path e = record {
    keeps = λ b u h. go b u h (Bool-cases (a == b));
  }
    where
      go :
          (b : ℕ) (u : LogFile)
          → get_elem? w.objects b ≡ some u
          → ((a == b) ≡ true) ⊎ ((a == b) ≡ false)
          → (u' : LogFile) × (get_elem? w'.objects b ≡ some u') × (u'.filepath ≡ u.filepath)
      go b u h (inl hit) =
          (o', ground (arith, get_elem?-set w.objects a b o o' there), ground arith)
      go b u h (inr miss) = (u, ground (arith, get_elem?-set w.objects a b o o' there), refl)

  append-Grows : (w w' : World P) (o : LogFile) → w'.objects ≡ w.objects ++ o ∷ [] → Grows w w'
  append-Grows w w' o e = record {
    keeps = λ a u h. (
      u,
      ap (λ (t : List LogFile). get_elem? t a) e ∙ get_elem?-append_old w.objects (o ∷ []) a u h,
      refl,
    );
  }

  pub IsCollected-Grows :
      (w w' : World P) → Grows w w' → w'.collection ≡ w.collection → IsCollected w → IsCollected w'
  IsCollected-Grows w w' g same_map c = record {
    collected = λ q f h.
        let (a, e, held) = c.collected q f (rw same_map at h) in (a, e, Holds-Grows q a g held);
  }

  module _ (p : FilePath) (w : World P) where
    Opens-Grows : (r : Result ℕ × World P) → Opens P p w r → Grows w r.1
    Opens-Grows r (reused a o c there owned e) =
        rw e (recount-Grows w _ a o (one_more o) there refl refl)
    Opens-Grows r (created there x e) = rw e (append-Grows w _ (new_object p) refl)
    Opens-Grows r (refused x h e) = rw e (Grows-refl w)
    Opens-Grows r (crashed h e) = rw e (Grows-refl w)

    pub open_file-Grows : Grows w (open_file P p w).1
    open_file-Grows = Opens-Grows (open_file P p w) (open_file-Opens P p w)

    -- The object that has just been made for `p`.
    new-Holds :
        (w' : World P)
        → w'.objects ≡ w.objects ++ new_object p ∷ []
        → (q : FilePath) → same P.path_order p q ≡ true
        → Holds w' q (length w.objects)
    new-Holds w' e q hit = record {
      object = new_object p;
      there =
          ap (λ (t : List LogFile). get_elem? t (length w.objects)) e
          ∙ get_elem?-append_new w.objects (new_object p);
      for_path = hit;
    }

    created-IsCollected :
        (w' : World P)
        → Grows w w'
        → w'.objects ≡ w.objects ++ new_object p ∷ []
        → w'.collection ≡ assign P.path_order p (some (length w.objects)) w.collection
        → IsCollected w
        → IsCollected w'
    created-IsCollected w' g objects collection c = record {
      collected = λ q f h. go q f h (Bool-cases (same P.path_order p q));
    }
      where
        found :
            (q : FilePath)
            → find P.path_order q w'.collection ≡ (
                if same P.path_order p q
                then some (some (length w.objects))
                else find P.path_order q w.collection)
        found q =
            rw collection (find-assign P.path_order p q (some (length w.objects)) w.collection)

        go :
            (q : FilePath) (f : Pointer)
            → find P.path_order q w'.collection ≡ some f
            → (same P.path_order p q ≡ true) ⊎ (same P.path_order p q ≡ false)
            → (a : ℕ) × (f ≡ some a) × Holds w' q a
        go q f h (inl hit) = (length w.objects, ground (arith, found q), new-Holds w' objects q hit)
        go q f h (inr miss) =
            let (a, e, held) = c.collected q f (ground (arith, found q)) in
            (a, e, Holds-Grows q a g held)

    Opens-IsCollected : (r : Result ℕ × World P) → Opens P p w r → IsCollected w → IsCollected r.1
    Opens-IsCollected r (reused a o h there owned e) c =
        rw e (IsCollected-Grows w _ (recount-Grows w _ a o (one_more o) there refl refl) refl c)
    Opens-IsCollected r (created there x e) c =
        rw e (created-IsCollected _ (append-Grows w _ (new_object p) refl) refl refl c)
    Opens-IsCollected r (refused x h e) c = rw e c
    Opens-IsCollected r (crashed h e) c = rw e c

    pub open_file-IsCollected : IsCollected w → IsCollected (open_file P p w).1
    open_file-IsCollected = Opens-IsCollected (open_file P p w) (open_file-Opens P p w)

    Opens-Holds :
        (r : Result ℕ × World P) (a : ℕ)
        → Opens P p w r
        → IsCollected w
        → r.0 ≡ ok a
        → Holds r.1 p a
    Opens-Holds r a (reused b o h there owned e) c k =
        let (b', s, held) = c.collected p (some b) h in
        let q : b' ≡ a = ground arith in
        Holds-Grows p a (Opens-Grows r (reused b o h there owned e)) (subst (Holds w p) q held)
    Opens-Holds r a (created there x e) c k =
        let q : length w.objects ≡ a = ground arith in
        subst (Holds r.1 p) q (
          new-Holds r.1 (ap (λ (t : Result ℕ × World P). t.1.objects) e) p
            (same_refl P.path_order p))
    Opens-Holds r a (refused x h e) c k = ground arith
    Opens-Holds r a (crashed h e) c k = ground arith

    -- The object that is returned is for the path.
    pub open_file-Holds :
        (a : ℕ) → IsCollected w → (open_file P p w).0 ≡ ok a → Holds (open_file P p w).1 p a
    open_file-Holds a = Opens-Holds (open_file P p w) a (open_file-Opens P p w)
