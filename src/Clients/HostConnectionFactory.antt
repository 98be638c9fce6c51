-- ===== src/Clients/HostConnectionFactory.antt =====
-- logsvccpp/client/HostConnectionFactory.cpp: a connection to port 5607 of a host. All connections of a
-- process share one io_service, which one thread runs until it has no work. The resolver and
-- async_connect of boost::asio are parameters.
pub mod Connects
use logsvc.Common.{ℕ, ◌+◌, ◌-◌, Bool, true, false, Option, none, some, if◌then◌else◌, ltb, ◌&&◌}
use logsvc.Common.Text.{Bytes, codes}
use logsvc.Clients.ConnectionFactory.{ConnectionFactory}
use logsvc.Clients.DefaultConnection as DefaultConnection
use logsvc.Errors.{Result, ok, throw, fault, map_ok, unable_to_connect_error}
use logsvc.Log.Objects.Client
use logsvc.Network.Socket as Socket
use logsvc.Platform.{Platform}

-- boost::asio::ip::tcp: the endpoints of a host and a service, where the resolver does not throw, and
-- the message of the error with which connecting to them ends, if it does.
pub record Network : Type 1 where
  pub Endpoints : Type 0
  pub resolve : Bytes → Bytes → Result Endpoints
  pub connect : Endpoints → Option Bytes

-- The singleton: a std::thread stays joinable until it is joined, also when run() has returned.
-- `work` counts the sockets that are kept alive.
pub record IoServiceSingleton : Type 0 where
  pub thread_joinable : Bool
  pub running : Bool
  pub work : ℕ

-- IOServiceSingleton()
abbrev pub instance_at_start : IoServiceSingleton
instance_at_start = record { thread_joinable = false; running = false; work = 0 }

unfoldable pub make_sure_it_runs : IoServiceSingleton → IoServiceSingleton
make_sure_it_runs s =
    if s.thread_joinable then s else record s { thread_joinable = true; running = true }

-- run() returns when there is no work.
unfoldable pub run_on : IoServiceSingleton → IoServiceSingleton
run_on s = record s { running = s.running && ltb 0 s.work }

-- A socket that was kept alive is destroyed.
unfoldable pub release_socket : IoServiceSingleton → IoServiceSingleton
release_socket s = run_on (record s { work = s.work - 1 })

pub record HostConnectionFactory : Type 0 where
  pub hostname_or_ip : Bytes
  pub local_ip : Bytes

-- HostConnectionFactory(hostname_or_ip, local_ip)
abbrev pub construct : Bytes → Bytes → HostConnectionFactory
construct hostname_or_ip local_ip = record { hostname_or_ip = hostname_or_ip; local_ip = local_ip }

-- A DefaultConnection, and the socket that it owns.
pub record Session : Type 0 where
  pub socket : Socket.DefaultSocket
  pub connection : DefaultConnection.DefaultConnection

-- std::promise<bool>
abbrev pub Promised : Type 0
Promised = Option (Result Bool)

-- The handler of async_connect.
unfoldable pub connected : Option Bytes → Socket.DefaultSocket → Promised × Socket.DefaultSocket
connected (some message) socket = (some (throw (unable_to_connect_error (some message))), socket)
connected none socket = (some (ok true), Socket.keep_alive socket)

-- A socket that is kept alive holds an io_service::work.
abbrev idle_count : Socket.DefaultSocket → ℕ
idle_count socket = if socket.idle_work then 1 else 0

abbrev recount :
    Socket.DefaultSocket → Socket.DefaultSocket → IoServiceSingleton → IoServiceSingleton
recount before after s = record s { work = s.work - idle_count before + idle_count after }

-- The handler runs if the thread does. Then run() goes on if there is work.
run_handler :
    Option Bytes
    → Socket.DefaultSocket
    → IoServiceSingleton
    → (Promised × Socket.DefaultSocket) × IoServiceSingleton
run_handler error socket s =
    if s.running
    then (let answer = connected error socket in (answer, run_on (recount socket answer.1 s)))
    else ((none, socket), s)

-- future_connection.get(), and what follows. Nothing is returned as long as the promise is not kept.
finish :
    Promised × Socket.DefaultSocket
    → IoServiceSingleton
    → Option (Result Session) × IoServiceSingleton
finish (none, socket) s = (none, s)
finish (some (throw e), socket) s = (some (throw e), s)
finish (some fault, socket) s = (some fault, s)
finish (some (ok false), socket) s =
    (some (throw (unable_to_connect_error (some (codes "Unspecified connect error.")))), s)
finish (some (ok true), socket) s =
    let kept = Socket.keep_alive socket in
    (
      some (ok (record { socket = kept; connection = DefaultConnection.construct })),
      recount socket kept s,
    )

module _ (N : Network) where
  connect_to :
      Result N.Endpoints → IoServiceSingleton → Option (Result Session) × IoServiceSingleton
  connect_to (throw e) s = (some (throw e), s)
  connect_to fault s = (some fault, s)
  connect_to (ok endpoints) s =
      let (answer, t) = run_handler (N.connect endpoints) Socket.construct (make_sure_it_runs s) in
      finish answer t

  -- The result, or none where the call does not return.
  unfoldable pub create_session :
      HostConnectionFactory → IoServiceSingleton → Option (Result Session) × IoServiceSingleton
  unfolding connect_to run_handler finish
  create_session f s = connect_to (N.resolve f.hostname_or_ip (codes "5607")) s

-- prot::Client(appname, boost::asio::ip::address::from_string(local_ip))
unfoldable pub create_client_info : Platform → HostConnectionFactory → Bytes → Result Client.Client
create_client_info P f appname = map_ok (Client.of_name_ip appname) (P.from_string f.local_ip)

-- What a caller sees: a call that does not come back is a fault.
comes_back : Option (Result Session) × IoServiceSingleton → Result Bool × IoServiceSingleton
comes_back (none, s) = (fault, s)
comes_back (some r, s) = (map_ok (λ session. true) r, s)

-- The factories of a process, as what a host gets its connections from.
unfoldable pub factories : Platform → Network → Bytes → Bytes → ConnectionFactory IoServiceSingleton
unfolding comes_back
factories P N hostname_or_ip local_ip =
    let f = construct hostname_or_ip local_ip in
    record {
      create_session = λ s. comes_back (create_session N f s);
      create_client_info = create_client_info P f;
    }
