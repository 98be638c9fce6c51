-- ===== src/Clients/DefaultConnection.antt =====
-- logsvccpp/client/DefaultConnection.cpp: requests of several threads over one socket. A thread that
-- sends waits for the mutex, which is released when its answer has come or an error has occurred.
-- `calls` are the calls on the socket that have not completed; any thread may go next.
pub mod Handlers
pub mod Serialized
pub mod Drained
pub mod Destroyed
pub mod Answered
use logsvc.Common.{
  ℕ, ◌+◌, Bool, true, false, Option, none, some, List, [], ◌∷◌, ◌++◌, if◌then◌else◌,
}
use logsvc.Common.Text.{Bytes, codes}
use logsvc.Daemon.SocketSession.{SocketCall, async_read, async_write}
use logsvc.Errors.{Result, ok, throw, logic_error, socket_error}
use logsvc.Exec.{Exec, pure, raise, lift, modify, resume, ◌>>=◌, ◌>>◌}
use logsvc.Log.Factory.{create}
use logsvc.Log.Interfaces.{Deliverable}
use logsvc.Log.Receivable.{Receivable, get_payload_length, read_payload}
use logsvc.Platform.{Platform}

-- A std::promise: the number of the `send` that it was made for, and whether it has been kept.
pub record Promise : Type 0 where
  pub number : Option ℕ
  pub satisfied : Bool

abbrev pub new_promise : ℕ → Promise
new_promise number = record { number = some number; satisfied = false }

pub record DefaultConnection : Type 0 where
  pub mutex_locked : Bool
  pub current_receivable : Option Receivable
  pub current_promise : Promise
  -- the calls of send so far, and the threads among them that have not got the mutex
  pub sends : ℕ
  pub waiting : List (ℕ × Bytes)
  pub calls : List SocketCall
  -- the calls of keep_alive on the socket so far
  pub keep_alives : ℕ
  -- what the futures have got
  pub results : List (Option ℕ × Result Receivable)

-- DefaultConnection(socket, factory)
abbrev pub construct : DefaultConnection
construct = record {
  mutex_locked = false;
  current_receivable = none;
  current_promise = record { number = none; satisfied = false };
  sends = 0;
  waiting = [];
  calls = [];
  keep_alives = 1;
  results = [];
}

-- The data is formed by the caller, before the thread starts.
unfoldable pub send : Deliverable → Exec DefaultConnection ℕ
send d = do
  header ← lift d.get_header
  payload ← lift d.get_payload
  λ s. (
    ok s.sends,
    record s { sends = s.sends + 1; waiting = s.waiting ++ (s.sends, header ++ payload) ∷ [] },
  )

-- serialized_send_message(data, promise), from where the thread has the mutex
unfoldable pub serialized_send_message : ℕ → Bytes → DefaultConnection → DefaultConnection
serialized_send_message number bytes s = record s {
  mutex_locked = true;
  current_promise = new_promise number;
  calls = async_write bytes ∷ s.calls;
}

-- current_promise.set_value(…) or set_exception(…), which throws if the promise has been kept
unfoldable pub set_promise : Result Receivable → Exec DefaultConnection (Unit {0})
set_promise r s =
    if s.current_promise.satisfied
    then (throw (logic_error (codes "promise already satisfied")), s)
    else (
      ok tt,
      record s {
        current_promise = record s.current_promise { satisfied = true };
        results = s.results ++ (s.current_promise.number, r) ∷ [];
      },
    )

keep_alive : DefaultConnection → DefaultConnection
keep_alive s = record s { keep_alives = s.keep_alives + 1 }

unlock : DefaultConnection → DefaultConnection
unlock s = record s { mutex_locked = false }

module _ (P : Platform) where
  begin_payload : Result Receivable → Exec DefaultConnection (Unit {0})
  begin_payload r = do
    current ← lift r
    modify λ s. record s {
      current_receivable = some current;
      calls = async_read (get_payload_length current) ∷ s.calls;
    }

  -- current_receivable has been moved into the promise, and is null.
  end_payload : Result Receivable → Exec DefaultConnection (Unit {0})
  end_payload r = do
    current ← lift r
    modify λ s. record s { current_receivable = none }
    set_promise (ok current)
    modify keep_alive
    modify unlock

  receive : Option Receivable → Bytes → Exec DefaultConnection (Unit {0})
  receive none bytes = begin_payload (create P bytes)
  receive (some current) bytes = end_payload (read_payload bytes current)

  unfoldable pub bytes_received : Bytes → Exec DefaultConnection (Unit {0})
  unfolding receive begin_payload end_payload keep_alive unlock
  bytes_received bytes s = receive s.current_receivable bytes s

unfoldable pub write_succeeded : DefaultConnection → DefaultConnection
write_succeeded s = record s { calls = async_read 12 ∷ s.calls }

unfoldable pub error_occurred : Bytes → Exec DefaultConnection (Unit {0})
unfolding keep_alive unlock
error_occurred message = do
  modify λ s. record s { current_receivable = none }
  set_promise (throw (socket_error message))
  modify keep_alive
  modify unlock

-- What a future gets whose promise is destroyed unkept.
abbrev pub broken_promise : Result Receivable
broken_promise = throw (logic_error (codes "broken promise"))

break_promise : Promise → DefaultConnection → DefaultConnection
break_promise p s =
    if p.satisfied then s else record s { results = s.results ++ (p.number, broken_promise) ∷ [] }

-- A thread of serialized_send_message once the socket has been reset. If it had tested the socket before
-- that, it waits for the mutex, makes its promise the current one, and ends without a write and without
-- unlocking; `none` is a wait for ever. If not, it returns at the test, and its promise is destroyed.
end_thread : Bool → ℕ → DefaultConnection → Option DefaultConnection
end_thread true number s =
    if s.mutex_locked
    then none
    else some (record s { mutex_locked = true; current_promise = new_promise number })
end_thread false number s = some (break_promise (new_promise number) s)

-- for (std::thread& t : threads) if (t.joinable()) t.join();
join_threads : (ℕ → Bool) → List (ℕ × Bytes) → Option DefaultConnection → Option DefaultConnection
join_threads had_tested threads none = none
join_threads had_tested [] (some s) = some s
join_threads had_tested (t ∷ threads) (some s) =
    join_threads had_tested threads (end_thread (had_tested t.0) t.0 s)

-- The members are destroyed, the current promise among them.
drop_promise : Option DefaultConnection → Option DefaultConnection
drop_promise none = none
drop_promise (some s) = some (break_promise s.current_promise (record s { waiting = [] }))

-- ~DefaultConnection(), where `had_tested` tells of each thread that waits whether it had tested the
-- socket before. The completions that are still to come find that the socket is dying.
unfoldable pub destroy : (ℕ → Bool) → DefaultConnection → Option DefaultConnection
unfolding join_threads end_thread break_promise drop_promise
destroy had_tested s =
    drop_promise (join_threads had_tested s.waiting (some (record s { calls = [] })))
