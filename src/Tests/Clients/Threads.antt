-- ===== src/Tests/Clients/Threads.antt =====
-- The threads of a client's connection: a send that waits, and one that has the mutex.
use logsvc.Common.{ℕ, ◌≡◌, ◌⊎◌, refl, Bool, true, false, none, some, [], ◌∷◌, arith}
use logsvc.Common.Text.{codes}
use logsvc.Clients.DefaultConnection as Connection
use logsvc.Clients.DefaultConnection.{
  DefaultConnection, send, serialized_send_message, error_occurred, set_promise, destroy,
}
use logsvc.Clients.DefaultConnection.Answered.{answers, destroy-answers}
use logsvc.Clients.DefaultConnection.Destroyed.{ReturnsWithin, blocked, room, destroy_lem}
use logsvc.Clients.DefaultConnection.Drained.{
  Fail, Fails, Told, Ended, done, further, call_fails, failing-Told,
}
use logsvc.Daemon.SocketSession.{async_write}
use logsvc.Clients.DefaultConnection.Serialized.{
  Reachable, started, stepped, asks, runs, IsSerial, serialized_lem,
}
use logsvc.Errors.{ok, throw, socket_error}
use logsvc.Log.Interfaces.{Deliverable}
use logsvc.Tests.{stand_in}

abbrev ackn_deliverable : Deliverable
ackn_deliverable = record { get_header = ok (codes "head"); get_payload = ok (codes "body") }

abbrev one_waiting : DefaultConnection
one_waiting = record Connection.construct { sends = 1; waiting = (0, codes "headbody") ∷ [] }

abbrev one_running : DefaultConnection
one_running = serialized_send_message 0 (codes "headbody") (record one_waiting { waiting = [] })

one_running-Reachable : Reachable stand_in one_running
unfolding send
one_running-Reachable =
    stepped one_waiting one_running
      (stepped Connection.construct one_waiting started (asks ackn_deliverable 0 refl))
      (runs [] [] 0 (codes "headbody") refl refl refl)

serialized_example : IsSerial stand_in one_running
serialized_example = serialized_lem stand_in one_running one_running-Reachable

-- Its write fails.
abbrev one_told : DefaultConnection
one_told = record one_running {
  mutex_locked = false;
  current_promise = record { number = some 0; satisfied = true };
  calls = [];
  keep_alives = 2;
  results = (some 0, throw (socket_error (codes "lost"))) ∷ [];
}

one-Fails : Fails (codes "lost") 1 one_running one_told
unfolding serialized_send_message error_occurred set_promise
one-Fails =
    further 0 one_running one_told one_told
      (call_fails [] [] (async_write (codes "headbody")) refl refl) (done one_told)

failing-Told_example :
    Told (codes "lost") 1 one_running one_told
    × (Ended one_told ⊎ ((u : DefaultConnection) × Fail (codes "lost") one_told u))
failing-Told_example =
    failing-Told stand_in (codes "lost") 1 one_running one_told one_running-Reachable one-Fails

all_tested : ℕ → Bool
all_tested n = true

-- A second thread waits while the first has the mutex.
abbrev two_sent : DefaultConnection
two_sent = record one_running { sends = 2; waiting = (1, codes "headbody") ∷ [] }

-- The destructor does not return then.
destroy_lem_example :
    ReturnsWithin
      (blocked all_tested two_sent.waiting)
      (room two_sent)
      (destroy all_tested two_sent)
destroy_lem_example = destroy_lem all_tested two_sent

two_sent_hangs : destroy all_tested two_sent ≡ none
unfolding serialized_send_message all_tested destroy
two_sent_hangs = refl

-- A thread that gets the mutex from the destructor: its promise is broken.
abbrev one_broken : DefaultConnection
one_broken = record one_waiting {
  mutex_locked = true;
  current_promise = Connection.new_promise 0;
  waiting = [];
  results = (some 0, Connection.broken_promise) ∷ [];
}

one_waiting-Reachable : Reachable stand_in one_waiting
unfolding send
one_waiting-Reachable =
    stepped Connection.construct one_waiting started (asks ackn_deliverable 0 refl)

one_waiting-destroy : destroy all_tested one_waiting ≡ some one_broken
unfolding destroy all_tested
one_waiting-destroy = refl

destroy-answers_example : answers 0 one_broken.results ≡ 1
destroy-answers_example =
    destroy-answers stand_in all_tested one_waiting one_broken 0 one_waiting-Reachable
      one_waiting-destroy (omega arith)
