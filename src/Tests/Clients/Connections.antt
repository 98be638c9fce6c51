-- ===== src/Tests/Clients/Connections.antt =====
-- Connections that fail and are tried again: a host that cannot be reached, and the C interface.
use logsvc.Clients.{SessionConnection}
use logsvc.Common.{ℕ, ◌≡◌, refl, none, some, []}
use logsvc.Common.Text.{codes}
use logsvc.Clients.HostConnectionFactory.{
  Network, HostConnectionFactory, IoServiceSingleton, instance_at_start, create_session, factories,
}
use logsvc.Clients.HostConnectionFactory.Connects.{
  Connects, not_started, create_session_lem, retry_hangs,
}
use logsvc.Clients.Interface.{logsvc_connect_host, logsvc_open}
use logsvc.Clients.Interface.Opens.{after_first, reopen_hangs}
use logsvc.Errors.{ok, throw, fault, unable_to_connect_error, socket_error}
use logsvc.Tests.{stand_in}

abbrev nobody_listens : Network
nobody_listens = record {
  Endpoints = ℕ;
  resolve = λ host service. ok 1;
  connect = λ endpoints. some (codes "Connection refused");
}

abbrev factory : HostConnectionFactory
factory = record { hostname_or_ip = codes "host"; local_ip = codes "127.0.0.1" }

create_session_example :
    Connects nobody_listens factory instance_at_start
      (create_session nobody_listens factory instance_at_start)
create_session_example =
    create_session_lem nobody_listens factory instance_at_start (not_started refl)

retry_hangs_example :
    ((create_session nobody_listens factory instance_at_start).0
      ≡ some (throw (unable_to_connect_error (some (codes "Connection refused")))))
    × ((create_session nobody_listens factory
          (create_session nobody_listens factory instance_at_start).1).0
        ≡ none)
retry_hangs_example =
    retry_hangs nobody_listens factory factory 1 1 (codes "Connection refused") refl refl refl

-- A connection that answers nothing: none is made.
abbrev silent : SessionConnection IoServiceSingleton
silent = record { send = λ d s. (throw (socket_error []), s) }

reopen_hangs_example :
    (logsvc_open silent (factories stand_in nobody_listens) (codes "a") (
        logsvc_connect_host silent
          (factories stand_in nobody_listens)
          (codes "host")
          (codes "me")
          instance_at_start)
      ≡ (
        ok none,
        logsvc_connect_host silent
            (factories stand_in nobody_listens)
            (codes "host")
            (codes "me")
            (after_first stand_in nobody_listens silent (codes "host")),
      ))
    × ((logsvc_open silent (factories stand_in nobody_listens) (codes "b") (
          logsvc_connect_host silent
            (factories stand_in nobody_listens)
            (codes "host")
            (codes "me")
            (after_first stand_in nobody_listens silent (codes "host")))).0
        ≡ fault)
reopen_hangs_example =
    reopen_hangs stand_in nobody_listens silent (codes "host") (codes "me") (codes "a") (codes "b")
      1 (codes "Connection refused") refl refl
