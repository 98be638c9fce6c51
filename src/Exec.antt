-- ===== src/Exec.antt =====
-- Actions: methods of an object that is changed in place. A throw leaves the object as it was
-- changed so far, and `attempt` is `try` with a handler for `const std::exception&`.
use logsvc.Errors.{Exception, Result, ok, throw, fault}

abbrev pub Exec : Type 0 → Type 0 → Type 0
Exec S A = S → Result A × S

module _ {S : Type 0} where
  abbrev pub pure : {A : Type 0} → A → Exec S A
  pure a s = (ok a, s)

  abbrev pub raise : {A : Type 0} → Exception → Exec S A
  raise e s = (throw e, s)

  -- A failed assert, or a null pointer that is followed.
  abbrev pub crash : {A : Type 0} → Exec S A
  crash s = (fault, s)

  -- A call that does not touch the state.
  abbrev pub lift : {A : Type 0} → Result A → Exec S A
  lift r s = (r, s)

  abbrev pub modify : (S → S) → Exec S (Unit {0})
  modify f s = (ok tt, f s)

  abbrev pub resume : {A B : Type 0} → (A → Exec S B) → Result A × S → Result B × S
  resume f (ok a, s) = f a s
  resume f (throw e, s) = (throw e, s)
  resume f (fault, s) = (fault, s)

  infixl 5 ◌>>=◌ ◌>>◌
  abbrev pub ◌>>=◌ : {A B : Type 0} → Exec S A → (A → Exec S B) → Exec S B
  ◌>>=◌ m f s = resume f (m s)

  abbrev pub ◌>>◌ : {B : Type 0} → Exec S (Unit {0}) → Exec S B → Exec S B
  m >> k = m >>= λ _. k

  abbrev pub handle : {A : Type 0} → (Exception → Exec S A) → Result A × S → Result A × S
  handle h (ok a, s) = (ok a, s)
  handle h (throw e, s) = h e s
  handle h (fault, s) = (fault, s)

  abbrev pub attempt : {A : Type 0} → Exec S A → (Exception → Exec S A) → Exec S A
  attempt m h s = handle h (m s)
