-- ===== src/Tests/Network.antt =====
-- A socket with two writes asked for, the first of them done.
use logsvc.Common.{◌≡◌, refl, true, none, List, [], ◌∷◌, ◌++◌}
use logsvc.Common.Text.{codes}
use logsvc.Errors.{ok}
use logsvc.Network.Socket.{
  DefaultSocket, Call, reads, writes, construct, calls, async_read, async_write, add_to_write_queue,
  write_front, handle_write, keeping,
}
use logsvc.Network.Socket.Fifo.{asked, waiting}
use logsvc.Network.Socket.Run.{Run, made, called, has_written, fifo_lem, handle_write_lem}

abbrev two_writes : List Call
two_writes = writes 1 (codes "a") ∷ reads 1 12 ∷ writes 1 (codes "b") ∷ []

abbrev one_more : List Call
one_more = writes 2 (codes "c") ∷ []

abbrev asked_twice : DefaultSocket
asked_twice = (calls two_writes construct).1

asked_twice-Run : Run (asked two_writes) asked_twice
asked_twice-Run = called [] construct two_writes made

in_flight : asked_twice.write_queue_active ≡ true
unfolding calls async_read async_write add_to_write_queue write_front
in_flight = refl

abbrev written_once : DefaultSocket
written_once = (handle_write keeping none 1 one_more asked_twice).1

fifo_example : written_once.handed ++ waiting written_once ≡ asked two_writes ++ asked one_more
fifo_example =
    fifo_lem (asked two_writes ++ asked one_more) written_once
      (has_written (asked two_writes) asked_twice none 1 one_more asked_twice-Run in_flight)

handle_write_example : (handle_write keeping none 1 one_more asked_twice).0 ≡ ok tt
handle_write_example =
    handle_write_lem (asked two_writes) asked_twice none 1 one_more asked_twice-Run in_flight
