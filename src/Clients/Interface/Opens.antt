-- ===== src/Clients/Interface/Opens.antt =====
-- What reaches a program in C that opens a log on a host that cannot be reached, over the connections
-- that the library makes.
use logsvc.Common.{◌≡◌, refl, Option, none, some}
use logsvc.Common.Text.{Bytes, codes}
use logsvc.Clients.{SessionConnection}
use logsvc.Clients.Host.OneClient.{first_without, first_died}
use logsvc.Clients.HostConnectionFactory.{
  Session, Network, IoServiceSingleton, instance_at_start, construct, create_session, factories,
}
use logsvc.Clients.HostConnectionFactory.Connects.{retry_hangs}
use logsvc.Clients.Interface.{logsvc_connect_host, logsvc_open, log_of, open_or_null}
use logsvc.Clients.LocalClient as LocalClient
use logsvc.Errors.{FilePath, Exception, Result, ok, throw, fault}
use logsvc.Platform.{Platform}

module _ (P : Platform) (N : Network) (c : SessionConnection IoServiceSingleton) where
  -- The singleton after a first connection to the host has been tried.
  abbrev pub after_first : Bytes → IoServiceSingleton
  after_first hostname =
      (create_session N (construct hostname (codes "127.0.0.1")) instance_at_start).1

  module _ (hostname appname : Bytes) (s : IoServiceSingleton) where
    abbrev tried : Option (Result Session) × IoServiceSingleton
    tried = create_session N (construct hostname (codes "127.0.0.1")) s

    abbrev new_client : Result LocalClient.LocalClient × IoServiceSingleton
    new_client = LocalClient.construct c (factories P N hostname (codes "127.0.0.1")) appname s

    client_fails : (e : Exception) → tried.0 ≡ some (throw e) → new_client ≡ (throw e, tried.1)
    unfolding LocalClient.construct factories
    client_fails e h = rw h refl

    client_hangs : tried.0 ≡ none → new_client ≡ (fault, tried.1)
    unfolding LocalClient.construct factories
    client_hangs h = rw h refl

  -- In a process that has made no connection yet, logsvc_connect_host returns a host whether or not the
  -- daemon is there. If the host is resolved but cannot be reached, the first logsvc_open returns a null
  -- pointer, lets no exception through and leaves the host without a client; and a second logsvc_open
  -- on it, of any file, never returns.
  pub reopen_hangs :
      (hostname appname : Bytes) (filename other : FilePath) (endpoints : N.Endpoints)
      (message : Bytes)
      → N.resolve hostname (codes "5607") ≡ ok endpoints
      → N.connect endpoints ≡ some message
      → (logsvc_open c
            (factories P N)
            filename
            (logsvc_connect_host c (factories P N) hostname appname instance_at_start)
          ≡ (
            ok none,
            logsvc_connect_host c (factories P N) hostname appname (after_first hostname),
          ))
        × ((logsvc_open c
              (factories P N)
              other
              (logsvc_connect_host c (factories P N) hostname appname (after_first hostname))).0
            ≡ fault)
  unfolding logsvc_open open_or_null log_of logsvc_connect_host
  reopen_hangs hostname appname filename other endpoints message resolved refused =
      let f = construct hostname (codes "127.0.0.1") in
      let (fails, hangs) =
        retry_hangs N f f endpoints endpoints message resolved refused resolved in
      let start = client_fails hostname appname instance_at_start _ fails in
      let again = client_hangs hostname appname (after_first hostname) hangs in
      (
        rw (first_without c (factories P N) _ filename _ _ refl start) refl,
        rw (first_died c (factories P N) _ other _ refl again) refl,
      )
