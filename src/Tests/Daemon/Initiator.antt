-- ===== src/Tests/Daemon/Initiator.antt =====
-- Two connections are accepted, an accept fails, and one connection is lost.
use logsvc.Common.{◌≡◌, ◌<◌, none, some, List, [], ◌∷◌, arith}
use logsvc.Common.Map.{find, nat_order}
use logsvc.Common.Text.{codes}
use logsvc.Daemon.SessionInitiator.{
  Event, accepts, happens, happen, handle_accept, accept_requested, error_occurred, construct,
  connection_lost,
}
use logsvc.Daemon.SessionInitiator.Live.{IsWatching, happens-IsWatching, connection_lost_lem}

abbrev two_accepted : List Event
two_accepted = accepts none ∷ accepts (some (codes "aborted")) ∷ accepts none ∷ []

happens-IsWatching_example : IsWatching (happens two_accepted construct)
happens-IsWatching_example = happens-IsWatching two_accepted

two_created : 0 < (happens two_accepted construct).created
unfolding happens happen handle_accept accept_requested error_occurred
two_created = omega arith

connection_lost_example :
    find nat_order 0
      (happens two_accepted (connection_lost 0 (happens two_accepted construct))).live_sessions
    ≡ none
connection_lost_example = connection_lost_lem two_accepted two_accepted 0 two_created
