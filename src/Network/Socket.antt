-- ===== src/Network/Socket.antt =====
-- network/DefaultSocket.cpp: reads and writes through boost::asio, with a queue of the writes that
-- were asked for. What is handed to boost::asio and what listeners are told is recorded, in order. A
-- listener that is told something may call the socket again: its calls are an argument. The mutex
-- of the queue and the atomic flags are not modelled; the handlers run on one thread.
pub mod Fifo
pub mod Run
use logsvc.Common.{
  ℕ, Bool, true, false, Option, none, some, List, [], ◌∷◌, ◌++◌, map, if◌then◌else◌,
}
use logsvc.Common.Map.{Map, insert, erase, nat_order}
use logsvc.Common.Text.{Bytes, codes}
use logsvc.Errors.{ok, fault}
use logsvc.Exec.{Exec, pure, crash, modify, resume, ◌>>=◌, ◌>>◌}

-- What the socket calls on a SocketListener or a SocketStateListener, by the listener's number.
pub data Notice : Type 0 where
  bytes_received : ℕ → Bytes → Notice
  write_succeeded : ℕ → Notice
  error_occurred : ℕ → Bytes → Notice
  connection_lost : ℕ → Notice

-- A call of boost::asio::async_read, for a number of bytes and a listener.
pub record Read : Type 0 where
  pub read_bytes : ℕ
  pub listener : ℕ

pub record DefaultSocket : Type 0 where
  pub is_open : Bool
  pub state_listeners : Map ℕ (Unit {0})
  pub write_queue : List (Bytes × ℕ)
  pub idle_work : Bool
  pub write_queue_active : Bool
  pub were_dying : Bool
  -- given to boost::asio::async_write, the first first
  pub handed : List (Bytes × ℕ)
  -- given to boost::asio::async_read
  pub reads : List Read
  pub notices : List Notice

-- DefaultSocket(io_service), which is open once a connection has been made on it
abbrev pub construct : DefaultSocket
construct = record {
  is_open = true;
  state_listeners = [];
  write_queue = [];
  idle_work = false;
  write_queue_active = false;
  were_dying = false;
  handed = [];
  reads = [];
  notices = [];
}

-- The socket's calls of its listeners.
abbrev notify : Notice → DefaultSocket → DefaultSocket
notify n s = record s { notices = s.notices ++ n ∷ [] }

abbrev socket_closed : Bytes
socket_closed = codes "Socket closed."

unfoldable pub async_read : ℕ → ℕ → DefaultSocket → DefaultSocket
async_read listener read_bytes s =
    if s.were_dying then notify (error_occurred listener socket_closed) s else record s {
      reads = s.reads ++ record { read_bytes = read_bytes; listener = listener } ∷ [];
      idle_work = false;
    }

unfoldable pub add_to_write_queue : Bytes → ℕ → DefaultSocket → DefaultSocket
add_to_write_queue msg listener s = record s { write_queue = s.write_queue ++ (msg, listener) ∷ [] }

pop : List (Bytes × ℕ) → Exec DefaultSocket (Unit {0})
pop [] = crash
pop (front ∷ rest) = modify λ s. record s { write_queue = rest }

-- assert(!write_queue.empty());
unfoldable pub pop_write_queue : Exec DefaultSocket (Unit {0})
unfolding pop
pop_write_queue s = pop s.write_queue s

-- The front of an empty deque is undefined.
start : List (Bytes × ℕ) → Exec DefaultSocket (Unit {0})
start [] = crash
start (front ∷ rest) = modify λ s. record s { handed = s.handed ++ front ∷ [] }

unfoldable pub write_front : Exec DefaultSocket (Unit {0})
unfolding start
write_front s =
    if s.write_queue_active
    then (ok tt, s)
    else start s.write_queue (record s { write_queue_active = true })

unfoldable pub async_write : ℕ → Bytes → Exec DefaultSocket (Unit {0})
async_write listener data_to_write s =
    if s.were_dying
    then (ok tt, notify (error_occurred listener socket_closed) s)
    else (do write_front; modify λ t. record t { idle_work = false })
        (add_to_write_queue data_to_write listener s)

unfoldable pub add_socket_state_listener : ℕ → DefaultSocket → DefaultSocket
add_socket_state_listener l s = record s {
  state_listeners = insert nat_order l tt s.state_listeners;
}

unfoldable pub remove_socket_state_listener : ℕ → DefaultSocket → DefaultSocket
remove_socket_state_listener l s = record s {
  state_listeners = erase nat_order l s.state_listeners;
}

unfoldable pub keep_alive : DefaultSocket → DefaultSocket
keep_alive s = if s.were_dying then s else record s { idle_work = true }

-- ~DefaultSocket(): the handlers that are still to come find that the socket is dying.
unfoldable pub destroy : DefaultSocket → DefaultSocket
destroy s = record s { were_dying = true; is_open = false }

-- The socket tells its state listeners, in the order of the set. `destroys` says which of them destroys
-- the socket when it is told: the loop then goes on over a set that is gone, which is undefined.
tell_all : (ℕ → Bool) → Map ℕ (Unit {0}) → Exec DefaultSocket (Unit {0})
tell_all destroys [] s = (ok tt, s)
tell_all destroys ((l, u) ∷ rest) s =
    let told = notify (connection_lost l) s in
    let after = tell_all destroys rest told in if destroys l then (fault, destroy told) else after

unfoldable pub notify_state_listeners_of_connection_lost :
    (ℕ → Bool) → Exec DefaultSocket (Unit {0})
unfolding tell_all
notify_state_listeners_of_connection_lost destroys s = tell_all destroys s.state_listeners s

-- State listeners of which none destroys the socket.
abbrev pub keeping : ℕ → Bool
keeping listener = false

-- What a listener may call on the socket while it is told something.
pub data Call : Type 0 where
  reads : ℕ → ℕ → Call
  writes : ℕ → Bytes → Call
  keeps_alive : Call

call : Call → Exec DefaultSocket (Unit {0})
call (reads listener n) = modify (async_read listener n)
call (writes listener bytes) = async_write listener bytes
call keeps_alive = modify keep_alive

unfoldable pub calls : List Call → Exec DefaultSocket (Unit {0})
unfolding call
calls [] = pure tt
calls (c ∷ cs) = do call c; calls cs

read_result : (ℕ → Bool) → Option Bytes → ℕ → Bytes → List Call → Exec DefaultSocket (Unit {0})
read_result destroys none listener bytes reaction = do
  modify (notify (bytes_received listener bytes))
  calls reaction
read_result destroys (some message) listener bytes reaction = do
  modify (notify (error_occurred listener message))
  calls reaction
  notify_state_listeners_of_connection_lost destroys

unfoldable pub handle_read :
    (ℕ → Bool) → Option Bytes → ℕ → Bytes → List Call → Exec DefaultSocket (Unit {0})
unfolding read_result
handle_read destroys error listener bytes reaction s =
    if s.were_dying then (ok tt, s) else read_result destroys error listener bytes reaction s

write_unless_empty : List (Bytes × ℕ) → Exec DefaultSocket (Unit {0})
write_unless_empty [] = pure tt
write_unless_empty (front ∷ rest) = write_front

write_result : (ℕ → Bool) → Option Bytes → ℕ → List Call → Exec DefaultSocket (Unit {0})
write_result destroys none listener reaction = do
  modify (notify (write_succeeded listener))
  calls reaction
  λ s. write_unless_empty s.write_queue s
write_result destroys (some message) listener reaction = do
  modify (notify (error_occurred listener message))
  calls reaction
  notify_state_listeners_of_connection_lost destroys

unfoldable pub handle_write :
    (ℕ → Bool) → Option Bytes → ℕ → List Call → Exec DefaultSocket (Unit {0})
unfolding write_result write_unless_empty
handle_write destroys error listener reaction s =
    if s.were_dying
    then (ok tt, s)
    else (do
      pop_write_queue
      modify λ t. record t { write_queue_active = false }
      write_result destroys error listener reaction)
        s
