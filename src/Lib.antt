-- ===== src/Lib.antt =====
-- logsvc, logging as a service: clients connect to a daemon over TCP, open log files on the daemon's
-- host, and send messages, which the daemon writes to the files with the time and the client.
--
-- The parts and their files:
--   Common, Errors, Exec    helpers; the exceptions of log/ and logsvccpp/; code that may throw
--   Platform                the libraries that the program calls: file system, clock, addresses, and
--                           egen::lookup, which is assumed to find the entry of a map
--   Log/Codec               src/log/int_codec.cpp and create_header.cpp
--   Log/Handles, Log/Objects, Log/Receivable
--                           src/log/: the nine protocol objects. Each module has the constructors and
--                           get_header, get_payload, read_payload and act of its class. The virtual
--                           calls are functions by cases on the class
--   Log/Factory             src/log/ProtObjFactory.cpp
--   Log/Wire, Log/Answers   proofs on what is sent and received, and on what act comes to
--   Daemon/World            what the sessions of a daemon share (DefaultSessionFactory.cpp)
--   Daemon/LogFile, Daemon/Collection
--                           src/logsvc_daemon/LogFile.cpp and LogFileCollection.cpp. A shared pointer
--                           is the number of an object that counts its owners
--   Daemon/Timestamp, Daemon/TimestampFactory
--                           src/logsvc_daemon/DefaultTimestampFactory.cpp and .h
--   Daemon/RealSession      src/logsvc_daemon/RealSession.cpp, an Executor in the sense of Log/Interfaces
--   Daemon/SocketSession    src/logsvc_daemon/DefaultSocketSession.cpp, over any Executor
--   Daemon/Service          a connection over a session: what a client sees
--   Daemon/SessionInitiator src/logsvc_daemon/SessionInitiator.cpp, with handle_accept of
--                           src/network/DefaultSocketAcceptor.cpp
--   Daemon/SessionFactory   src/logsvc_daemon/DefaultSessionFactory.cpp
--   Daemon/Server           src/logsvc_daemon_main/main.cpp: all connections of the daemon together, on
--                           the io_service of src/network/DefaultSocketAcceptor.cpp
--   Network/Socket          src/network/DefaultSocket.cpp
--   Clients                 src/logsvccpp/: client/ConnectedLogFile.cpp, client/LocalClient.cpp,
--                           client/DefaultConnection.cpp, client/HostConnectionFactory.cpp, Log.cpp,
--                           Host.cpp and OutStream.cpp
--   Clients/Interface       src/logsvcc/Host.cpp and Log.cpp, the C interface
--   Clients/Programs        src/systest/loglinetofile.cpp, logviastream.cpp and cloglinetofile.c,
--                           and PyLog of src/logsvcpy/logsvcpy.cpp
--   Remote                  the client library and a session of the daemon, with their sockets joined
--   Tests                   a stand-in for the libraries, and the examples
--
-- The interaction: DefaultSocketSession reads a header, which the factory turns into an object that
-- waits for its payload; the object then acts on the session, and what it returns is written to the
-- socket. A method is a function from a state to a result and a state; an exception is
-- `throw`; a failed assert, a null pointer that is followed and a call that never returns are the
-- result `fault`.
--
-- The daemon runs its handlers one after the other. A state of Daemon/Server has the world that the
-- sessions share, the initiator, and the live sessions; a step is the completion of an accept, a
-- completion on the socket of one session, or the loss of a connection, in any order.
--
-- A client's file sends its requests through an interface, Clients.SessionConnection, that stands for
-- `send` and the wait for its future. A client gets its connection from a ConnectionFactory,
-- which HostConnectionFactory fills.
-- Remote fills that interface with a session of the daemon: what one end writes, the other reads.
-- HostConnectionFactory is modelled with the thread that runs its io_service, and with the result
-- `none` for a call that does not return; the resolver and async_connect are parameters.
--
-- Integers are natural numbers, reduced modulo 2 ^ 32 where an `unsigned int` is counted up or put
-- together; `char` is signed and `std::size_t` has 64 bits. The file handles of a session are given
-- out by a 32-bit counter, and the theorems about handles ask that it does not wrap around. No
-- definition needs fuel.
--
-- Not modelled: what boost::python declares in logsvcpy; the mutexes of the daemon and its sockets,
-- whose handlers run on one thread; the race of the destructor of DefaultConnection with a thread that
-- uses the socket at that moment; what the programs print to std::clog and std::cerr. In Daemon/Server
-- a read that comes with an error is the completion error_occurred followed by the loss of the
-- connection, which are two steps. The loss destroys the session there as if the socket had copied its
-- listeners first; in Network/Socket a listener that destroys the socket that tells it is a `fault`.
pub mod Common
pub mod Errors
pub mod Exec
pub mod Platform
pub mod Log
pub mod Daemon
pub mod Network
pub mod Clients
pub mod Remote
pub mod Tests
