-- ===== src/Daemon/RealSession/Counted.antt =====
-- The owners of an object are counted right: each open handle of a session is one of them.
use logsvc.Common.{
  ℕ, ◌+◌, ◌-◌, ◌≡◌, ◌∙◌, ap, sym, inl, inr, Option, none, some, [], ◌∷◌, ◌++◌, ◌==◌, if◌then◌else◌,
  get_elem?, set, length, arith, Option-cases, Bool-cases, get_elem?-set, get_elem?-append_one,
  get_elem?-length,
}
use logsvc.Common.Map.{Map, find, insert}
use logsvc.Common.Map.Total.{total, IsUnique, total-insert, IsUnique-insert}
use logsvc.Daemon.Collection.Cases.{Opens, reused, created, refused, crashed, one_more, new_object}
use logsvc.Daemon.LogFile as LogFile
use logsvc.Daemon.RealSession.{State, release_pointer, release_all, destroy}
use logsvc.Daemon.World.{World, LogFile, Pointer}
use logsvc.Errors.{FilePath, Result, ok}
use logsvc.Exec.{resume}
use logsvc.Log.Handles.{FileHandle, handle_order}
use logsvc.Platform.{Platform}

-- 1 where the pointer is to the object at `a`, else 0.
abbrev pub points_to : ℕ → Pointer → ℕ
points_to a none = 0
points_to a (some b) = if a == b then 1 else 0

-- The pointers to the object at `a` among the open files.
abbrev pub pointers : ℕ → Map FileHandle Pointer → ℕ
pointers a files = total (points_to a) files

abbrev pub owners_of : Option LogFile → ℕ
owners_of none = 0
owners_of (some o) = o.owners

module _ (P : Platform) where
  -- Every object has the owners in this session, and `others a` more.
  abbrev pub AreOwned : (ℕ → ℕ) → World P → Map FileHandle Pointer → Type 0
  AreOwned others w files =
      (a : ℕ) → owners_of (get_elem? w.objects a) ≡ pointers a files + others a

  -- One pointer less, which was to the object at `a`.
  pub release-owners :
      (w : World P) (a : ℕ) (others : ℕ → ℕ)
      → ((b : ℕ) → owners_of (get_elem? w.objects b) ≡ points_to b (some a) + others b)
      → (b : ℕ) → owners_of (get_elem? (LogFile.release P a w).objects b) ≡ others b
  unfolding LogFile.release
  release-owners w a others h b = elim (Option-cases (get_elem? w.objects a)) [
    | inl gone ↦
        let bad : owners_of (get_elem? w.objects a) ≡ 0 = ap owners_of gone in
        absurd (ground (arith, h a, bad))
    | inr (o, there) ↦
        let less = record o { owners = o.owners - 1 } in
        let moved = get_elem?-set w.objects a b o less there in
        elim (Bool-cases (a == b)) [
          | inl hit ↦
              let here : get_elem? w.objects b ≡ some o = ground (arith, hit, there) in
              let now : get_elem? (LogFile.release P a w).objects b ≡ some less =
                rw there (ground (arith, moved, hit)) in
              let held : o.owners ≡ points_to b (some a) + others b =
                sym (ap owners_of here) ∙ h b in
              let one : points_to b (some a) ≡ 1 = ground (arith, hit) in
              ap owners_of now ∙ omega arith
          | inr miss ↦
              let now : get_elem? (LogFile.release P a w).objects b ≡ get_elem? w.objects b =
                rw there (ground (arith, moved, miss)) in
              let held = h b in
              let zero : points_to b (some a) ≡ 0 = ground (arith, miss) in
              ap owners_of now ∙ omega arith
        ]
  ]

  release_all-owners :
      (files : Map FileHandle Pointer) (w : World P) (others : ℕ → ℕ)
      → AreOwned others w files
      → (a : ℕ) → owners_of (get_elem? (release_all P files w).objects a) ≡ others a
  unfolding release_all release_pointer total
  release_all-owners [] w others h a = omega (arith, h a)
  release_all-owners ((fh, none) ∷ files) w others h a =
      release_all-owners files w others (λ c. omega (arith, h c)) a
  release_all-owners ((fh, some b) ∷ files) w others h a =
      release_all-owners files (LogFile.release P b w) others
        (release-owners w b (λ c. pointers c files + others c) (λ c. omega (arith, h c))) a

  pub record IsCounted (others : ℕ → ℕ) (st : State P) : Type 0 where
    pub unique : IsUnique handle_order st.session.open_files
    pub owned : AreOwned others st.world st.session.open_files

  module _ (others : ℕ → ℕ) where
    -- What a handle is opened for: a pointer more, and an entry more.
    with_file-IsCounted :
        (fh : FileHandle) (a : ℕ) (st : State P) (w : World P)
        → IsCounted others st
        → find handle_order fh st.session.open_files ≡ none
        → ((b : ℕ)
            → owners_of (get_elem? w.objects b)
              ≡ points_to b (some a) + owners_of (get_elem? st.world.objects b))
        → IsCounted others (record {
          session = record st.session {
            open_files = insert handle_order fh (some a) st.session.open_files;
          };
          world = w;
        })
    with_file-IsCounted fh a st w c new more = record {
      unique = IsUnique-insert handle_order fh (some a) st.session.open_files new c.unique;
      owned = λ b. omega (
        arith,
        total-insert handle_order (points_to b) fh (some a) st.session.open_files new,
        c.owned b,
        more b,
      );
    }

    more_owners :
        (w : World P) (a : ℕ) (o : LogFile)
        → get_elem? w.objects a ≡ some o
        → (b : ℕ)
        → owners_of (get_elem? (set w.objects a (one_more o)) b)
          ≡ points_to b (some a) + owners_of (get_elem? w.objects b)
    more_owners w a o there b = elim (Bool-cases (a == b)) [
      | inl hit ↦
          let here : get_elem? w.objects b ≡ some o = ground (arith, hit, there) in
          let now : get_elem? (set w.objects a (one_more o)) b ≡ some (one_more o) =
            ground (arith, get_elem?-set w.objects a b o (one_more o) there, hit) in
          let one : points_to b (some a) ≡ 1 = ground (arith, hit) in
          let before = ap owners_of here in ap owners_of now ∙ omega arith
      | inr miss ↦
          let now : get_elem? (set w.objects a (one_more o)) b ≡ get_elem? w.objects b =
            ground (arith, get_elem?-set w.objects a b o (one_more o) there, miss) in
          let zero : points_to b (some a) ≡ 0 = ground (arith, miss) in
          ap owners_of now ∙ omega arith
    ]

    new_owners :
        (w : World P) (p : FilePath) (b : ℕ)
        → owners_of (get_elem? (w.objects ++ new_object p ∷ []) b)
          ≡ points_to b (some (length w.objects)) + owners_of (get_elem? w.objects b)
    new_owners w p b = elim (Bool-cases (b == length w.objects)) [
      | inl hit ↦
          let now : get_elem? (w.objects ++ new_object p ∷ []) b ≡ some (new_object p) =
            ground (arith, get_elem?-append_one w.objects (new_object p) b, hit) in
          let before : get_elem? w.objects b ≡ none =
            ground (arith, get_elem?-length w.objects, hit) in
          let one : points_to b (some (length w.objects)) ≡ 1 = ground (arith, hit) in
          let absent = ap owners_of before in ap owners_of now ∙ omega arith
      | inr miss ↦
          let now : get_elem? (w.objects ++ new_object p ∷ []) b ≡ get_elem? w.objects b =
            ground (arith, get_elem?-append_one w.objects (new_object p) b, miss) in
          let zero : points_to b (some (length w.objects)) ≡ 0 = ground (arith, miss) in
          ap owners_of now ∙ omega arith
    ]

    pub opened-IsCounted :
        (fh : FileHandle) (p : FilePath) (st : State P) (r : Result ℕ × World P)
        → Opens P p st.world r
        → IsCounted others st
        → find handle_order fh st.session.open_files ≡ none
        → IsCounted others
            (resume
              (λ (f : ℕ) (t : State P). (
                ok tt,
                record t {
                  session = record t.session {
                    open_files = insert handle_order fh (some f) t.session.open_files;
                  };
                },
              ))
              (r.0, record st { world = r.1 })).1
    opened-IsCounted fh p st r (reused a o e there owned q) c new =
        rw q (with_file-IsCounted fh a st _ c new (more_owners st.world a o there))
    opened-IsCounted fh p st r (created there e q) c new =
        rw q (with_file-IsCounted fh (length st.world.objects) st _ c new (new_owners st.world p))
    opened-IsCounted fh p st r (refused x e q) c new = rw q c
    opened-IsCounted fh p st r (crashed e q) c new = rw q c

  -- A session that ends leaves each object to its other owners.
  pub destroy-owners :
      (others : ℕ → ℕ) (st : State P)
      → AreOwned others st.world st.session.open_files
      → (a : ℕ) → owners_of (get_elem? (destroy P st).objects a) ≡ others a
  unfolding destroy
  destroy-owners others st owned = release_all-owners st.session.open_files st.world others owned
