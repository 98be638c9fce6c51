-- ===== src/Daemon/SocketSession.antt =====
-- logsvc_daemon/DefaultSocketSession.cpp: reads a header and then a payload from the socket, lets the
-- request act on the session, and writes the reply. The calls on the socket are recorded; their
-- completions are calls of bytes_received and write_succeeded.
pub mod Served
pub mod Reachable
pub mod Safety
pub mod Moves
use logsvc.Common.{
  ℕ, Bool, true, false, Option, none, some, List, [], ◌∷◌, ◌++◌, map, if◌then◌else◌,
}
use logsvc.Common.Map.{Map, insert, erase, nat_order}
use logsvc.Common.Text.{Bytes}
use logsvc.Errors.{Result, ok, throw, fault}
use logsvc.Exec.{Exec, pure, crash, lift, modify, resume, ◌>>=◌, ◌>>◌}
use logsvc.Log.Factory.{create}
use logsvc.Log.Interfaces.{Deliverable, Executor}
use logsvc.Log.Receivable.{Receivable, get_payload_length, is_final_message, read_payload, act}
use logsvc.Platform.{Platform}

-- network::Socket, as far as the session calls it.
pub data SocketCall : Type 0 where
  async_read : ℕ → SocketCall
  async_write : Bytes → SocketCall

-- The session, the state of its executor, and the calls on its socket, the latest first.
pub record SocketSession (S : Type 0) : Type 0 where
  pub has_socket : Bool
  pub current_receivable : Option Receivable
  pub executor : S
  pub listeners : Map ℕ (Unit {0})
  -- It is a state listener of its socket, and so is told when the connection is lost.
  pub hears_socket : Bool
  pub calls : List SocketCall

abbrev pub header_length : ℕ
header_length = 12

-- DefaultSocketSession(socket, exec, rf)
abbrev pub construct : {S : Type 0} → S → SocketSession S
construct exec = record {
  has_socket = true;
  current_receivable = none;
  executor = exec;
  listeners = [];
  hears_socket = true;
  calls = [];
}

module _ {S : Type 0} where
  -- if (the_socket) the_socket->…
  on_socket : SocketCall → SocketSession S → SocketSession S
  on_socket call st = if st.has_socket then record st { calls = call ∷ st.calls } else st

  unfoldable pub start_listen : SocketSession S → SocketSession S
  unfolding on_socket
  start_listen st = on_socket (async_read header_length) st

  unfoldable pub add_socket_session_listener : ℕ → SocketSession S → SocketSession S
  add_socket_session_listener l st = record st { listeners = insert nat_order l tt st.listeners }

  unfoldable pub remove_socket_session_listener : ℕ → SocketSession S → SocketSession S
  remove_socket_session_listener l st = record st { listeners = erase nat_order l st.listeners }

  -- connection_lost(socket): the listeners that are told, from a copy of the set
  unfoldable pub connection_lost : SocketSession S → List ℕ
  connection_lost st =
      if st.hears_socket then map (λ (entry : ℕ × Unit {0}). entry.0) st.listeners else []

  -- ~DefaultSocketSession(): the socket goes first, so that its handlers find no socket here.
  unfoldable pub destroy : SocketSession S → SocketSession S
  destroy st = record st { has_socket = false }

  module _ (P : Platform) (exec : Executor S) where
    -- current_receivable = the_receivable_factory->create(bytes); …
    begin_payload : Result Receivable → Exec (SocketSession S) (Unit {0})
    begin_payload r = do
      current ← lift r
      modify λ st.
          on_socket (async_read (get_payload_length current))
            (record st { current_receivable = some current })

    -- current_receivable->read_payload(bytes);
    take_payload : Result Receivable → Exec (SocketSession S) Receivable
    take_payload r = do
      current ← lift r
      λ st. (ok current, record st { current_receivable = some current })

    -- current_receivable->act(*executor)
    act_on_executor : Receivable → Exec (SocketSession S) (Option Deliverable)
    act_on_executor current st =
        let (d, s) = act P exec current st.executor in (d, record st { executor = s })

    -- if (the_socket) the_socket->async_write(*this, deliverable->get_header() + …);
    reply : Option Deliverable → Exec (SocketSession S) (Unit {0})
    reply none st = if st.has_socket then (fault, st) else (ok tt, st)
    reply (some d) st =
        if st.has_socket
        then (do
          header ← lift d.get_header
          payload ← lift d.get_payload
          modify (on_socket (async_write (header ++ payload))))
            st
        else (ok tt, st)

    receive : Option Receivable → Bytes → Exec (SocketSession S) (Unit {0})
    receive none bytes = begin_payload (create P bytes)
    receive (some current) bytes = do
      current' ← take_payload (read_payload bytes current)
      deliverable ← act_on_executor current'
      reply deliverable

    unfoldable pub bytes_received : Bytes → Exec (SocketSession S) (Unit {0})
    unfolding receive begin_payload take_payload act_on_executor reply on_socket
    bytes_received bytes st = receive st.current_receivable bytes st

  listen_for : Option Receivable → Exec (SocketSession S) (Unit {0})
  listen_for none = crash
  listen_for (some current) = modify λ st.
      let st' = record st { current_receivable = none } in
      if is_final_message current then st' else start_listen st'

  -- bool final = current_receivable->is_final_message(); …
  unfoldable pub listen_for_new_header : Exec (SocketSession S) (Unit {0})
  unfolding listen_for
  listen_for_new_header st = listen_for st.current_receivable st

  unfoldable pub write_succeeded : Exec (SocketSession S) (Unit {0})
  write_succeeded = listen_for_new_header

  -- std::clog << …
  unfoldable pub error_occurred : Bytes → Exec (SocketSession S) (Unit {0})
  error_occurred message = pure tt
