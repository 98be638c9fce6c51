-- ===== src/Daemon/SessionFactory.antt =====
-- logsvc_daemon/DefaultSessionFactory.cpp: what the sessions share, and a connection with its session.
use logsvc.Common.{[]}
use logsvc.Daemon.RealSession as RealSession
use logsvc.Daemon.SocketSession as SocketSession
use logsvc.Daemon.World.{World, new_collection, new_client_handle_factory}
use logsvc.Exec.{Exec, pure, ◌>>=◌}
use logsvc.Platform.{Platform}

module _ (P : Platform) where
  -- DefaultSessionFactory(), on a disk as it is
  unfoldable pub construct : P.Disk → World P
  construct disk = record {
    disk = disk;
    readings = 0;
    objects = [];
    collection = new_collection;
    handle_counter = new_client_handle_factory;
  }

  unfoldable pub create_session :
      Exec (World P) (SocketSession.SocketSession RealSession.RealSession)
  create_session = do session ← RealSession.construct P; pure (SocketSession.construct session)
