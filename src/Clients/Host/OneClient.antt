-- ===== src/Clients/Host/OneClient.antt =====
-- A host introduces itself once, and opens all of its files on that one connection.
use logsvc.Common.{◌≡◌, refl, ap, none, some, List, [], ◌∷◌}
use logsvc.Common.Text.{codes}
use logsvc.Clients.{SessionConnection}
use logsvc.Clients.ConnectedLogFile.{ConnectedLogFile}
use logsvc.Clients.Host.{
  OnHost, Factories, open_remote, get_connected_client, client_or_new, on_connection,
}
use logsvc.Clients.LocalClient as LocalClient
use logsvc.Errors.{FilePath, Exception, Result, ok, throw, fault}
use logsvc.Exec.{Exec}

-- Calls one after the other, whether they return or throw.
unfoldable pub each {ℓ} :
    {A : Type ℓ} {S B : Type 0} → (A → Exec S B) → List A → S → List (Result B) × S
each call [] s = ([], s)
each call (a ∷ rest) s = let (r, t) = call a s in let (rs, u) = each call rest t in (r ∷ rs, u)

module _ {S : Type 0} (c : SessionConnection S) (connection_factory : Factories S) where
  abbrev pub connected_with : OnHost S → LocalClient.LocalClient → S → OnHost S
  connected_with st l s = record { connection = s; host = record st.host { local_client = some l } }

  with_client :
      (st : OnHost S) (l : LocalClient.LocalClient) (s : S) (file : FilePath)
      → open_remote c connection_factory file (connected_with st l s)
        ≡ (let (r, t) = LocalClient.open_remote_file c file s in (r, connected_with st l t))
  unfolding open_remote get_connected_client client_or_new on_connection
  with_client st l s file = refl

  with_clients :
      (st : OnHost S) (l : LocalClient.LocalClient) (files : List FilePath) (s : S)
      → each (open_remote c connection_factory) files (connected_with st l s) ≡ (
          let (rs, t) = each (LocalClient.open_remote_file c) files s in
          (rs, connected_with st l t))
  unfolding each
  with_clients st l [] s = refl
  with_clients st l (file ∷ files) s =
      let (r, t) = LocalClient.open_remote_file c file s in
      rw (with_client st l s file) (
        ap (λ (p : List (Result ConnectedLogFile) × OnHost S). (r ∷ p.0, p.1))
          (with_clients st l files t))

  -- What the constructor of the client of a host does.
  abbrev pub new_client : OnHost S → Result LocalClient.LocalClient × S
  new_client st =
      LocalClient.construct c (connection_factory st.host.hostname (codes "127.0.0.1"))
        st.host.appname st.connection

  -- What opening files comes to, on a host that has no client yet.
  pub data Opens (st : OnHost S) (file : FilePath) (files : List FilePath) : Type 0 where
    connected :
        (l : LocalClient.LocalClient) (s : S)
        → new_client st ≡ (ok l, s)
        → each (open_remote c connection_factory) (file ∷ files) st ≡ (
            let (rs, t) = each (LocalClient.open_remote_file c) (file ∷ files) s in
            (rs, connected_with st l t))
        → Opens st file files
    refused :
        (e : Exception) (s : S)
        → new_client st ≡ (throw e, s)
        → open_remote c connection_factory file st ≡ (throw e, record st { connection = s })
        → Opens st file files
    died : (s : S) → new_client st ≡ (fault, s) → Opens st file files

  pub first_with :
      (st : OnHost S) (file : FilePath) (l : LocalClient.LocalClient) (s : S)
      → st.host.local_client ≡ none
      → new_client st ≡ (ok l, s)
      → open_remote c connection_factory file st
        ≡ (let (r, t) = LocalClient.open_remote_file c file s in (r, connected_with st l t))
  unfolding open_remote get_connected_client client_or_new on_connection
  first_with st file l s absent made = rw absent (rw made refl)

  pub first_without :
      (st : OnHost S) (file : FilePath) (e : Exception) (s : S)
      → st.host.local_client ≡ none
      → new_client st ≡ (throw e, s)
      → open_remote c connection_factory file st ≡ (throw e, record st { connection = s })
  unfolding open_remote get_connected_client client_or_new on_connection
  first_without st file e s absent made = rw absent (rw made refl)

  pub first_died :
      (st : OnHost S) (file : FilePath) (s : S)
      → st.host.local_client ≡ none
      → new_client st ≡ (fault, s)
      → open_remote c connection_factory file st ≡ (fault, record st { connection = s })
  unfolding open_remote get_connected_client client_or_new on_connection
  first_died st file s absent made = rw absent (rw made refl)

  -- On a host that has no client: if the client can be made, it is kept, and all the files that are opened
  -- from there on, whether that succeeds or not, are opened with it and over its connection: the factory
  -- is not asked again and the client not introduced again. If no client can be made, open_remote throws
  -- the same exception, and the host still has none.
  pub one_client_lem :
      (st : OnHost S) (file : FilePath) (files : List FilePath)
      → st.host.local_client ≡ none
      → Opens st file files
  unfolding each
  one_client_lem st file files absent = by_client (new_client st) refl
    where
      by_client : (r : Result LocalClient.LocalClient × S) → new_client st ≡ r → Opens st file files
      by_client (ok l, s) e = connected l s e (
          let (r, t) = LocalClient.open_remote_file c file s in
          rw (first_with st file l s absent e) (
            ap (λ (p : List (Result ConnectedLogFile) × OnHost S). (r ∷ p.0, p.1))
              (with_clients st l files t)))
      by_client (throw x, s) e = refused x s e (first_without st file x s absent e)
      by_client (fault, s) e = died s e
