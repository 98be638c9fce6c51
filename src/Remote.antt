-- ===== src/Remote.antt =====
-- A client of the library and a session of the daemon with their sockets joined: what one of them
-- writes, the other reads. The client's part is client/DefaultConnection.cpp for one request at a time,
-- the daemon's logsvc_daemon/DefaultSocketSession.cpp.
pub mod Logging
use logsvc.Common.{
  ℕ, ◌≡◌, refl, Bool, true, false, inl, inr, none, some, List, [], ◌∷◌, ◌++◌, length, take, drop,
  take-append, drop-append, Bool-cases,
}
use logsvc.Common.Text.{Bytes, codes}
use logsvc.Clients.{SessionConnection}
use logsvc.Daemon.RealSession.{State, executor}
use logsvc.Daemon.SocketSession.{SocketSession, SocketCall, async_read, async_write}
use logsvc.Daemon.SocketSession.Served.{exchange, served, exchange_lem}
use logsvc.Errors.{Result, ok, throw, fault, socket_error}
use logsvc.Exec.{Exec, lift, resume, ◌>>=◌}
use logsvc.Log.Factory.{create}
use logsvc.Log.Interfaces.{Deliverable}
use logsvc.Log.Receivable.{Receivable, read_payload, act, as_deliverable, is_final_message}
use logsvc.Log.Wire.{Delivered}
use logsvc.Platform.{Platform}

-- What the daemon wrote last.
last_written : List SocketCall → Bytes
last_written [] = []
last_written (async_read n ∷ calls) = last_written calls
last_written (async_write bytes ∷ calls) = bytes

module _ (P : Platform) where
  -- The client reads 12 bytes, and then the payload.
  read_answer : {S : Type 0} → Bytes → Exec S Receivable
  read_answer answer = do
    current ← lift (create P (take 12 answer))
    lift (read_payload (drop 12 answer) current)

  -- A session that ends takes the connection with it.
  answered :
      Result (Unit {0}) × SocketSession (State P) → Result Receivable × SocketSession (State P)
  answered (ok u, s) = read_answer (last_written s.calls) s
  answered (throw e, s) = (throw (socket_error (codes "End of file")), s)
  answered (fault, s) = (throw (socket_error (codes "End of file")), s)

  pub request : Deliverable → Exec (SocketSession (State P)) Receivable
  request d = do
    header ← lift d.get_header
    payload ← lift d.get_payload
    λ s. answered (exchange P (executor P) header payload s)

  abbrev pub joined : SessionConnection (SocketSession (State P))
  joined = record { send = request }

  module _ (st : SocketSession (State P)) where
    last_written-served :
        (n : ℕ) (final : Bool) (answer : Bytes) (s : State P)
        → last_written (served P (executor P) st n final answer s).calls ≡ answer
    unfolding last_written
    last_written-served n true answer s = refl
    last_written-served n false answer s = refl

    -- The client gets what the daemon's act answers, as it was sent.
    pub request_lem :
        (r reply : Receivable) (s : State P)
        → st.has_socket ≡ true
        → st.current_receivable ≡ none
        → Delivered P r
        → Delivered P reply
        → act P (executor P) r st.executor ≡ (ok (some (as_deliverable reply)), s)
        → (n : ℕ) × (answer : Bytes) × (joined.send (as_deliverable r) st
            ≡ (ok reply, served P (executor P) st n (is_final_message r) answer s))
    unfolding request answered read_answer
    request_lem r reply s connected idle (header, payload, a) (h, p, b) acts = (
      length payload,
      h ++ p,
      rw (
        a.sent_header,
        a.sent_payload,
        exchange_lem P (executor P) st connected r header payload (as_deliverable reply) s h p idle
            a acts b.sent_header b.sent_payload,
        last_written-served (length payload) (is_final_message r) (h ++ p) s,
        take-append h p 12 b.header_size,
        b.announced,
        drop-append h p 12 b.header_size,
        b.received,
      ),
    )
