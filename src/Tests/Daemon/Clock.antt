-- ===== src/Tests/Daemon/Clock.antt =====
-- The timestamp of a reading of the clock.
use logsvc.Common.{refl, arith}
use logsvc.Daemon.Timestamp.{timestamp}
use logsvc.Daemon.Timestamp.Columns.{Columns, IsTime, timestamp_lem}
use logsvc.Platform.{PTime}
use logsvc.Tests.{stand_in}

-- The last microsecond of a year.
abbrev late : PTime
late = record {
  year = 2013;
  month = 12;
  day = 31;
  hours = 23;
  minutes = 59;
  seconds = 59;
  fractional_seconds = 999999;
}

late-IsTime : IsTime late
late-IsTime = record {
  year = omega arith;
  month = omega arith;
  day = omega arith;
  hours = omega arith;
  minutes = omega arith;
  seconds = omega arith;
  fractional_seconds = omega arith;
}

timestamp_example : Columns late (timestamp stand_in late)
timestamp_example = timestamp_lem stand_in late refl late-IsTime
