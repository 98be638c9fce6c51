-- ===== src/Daemon/TimestampFactory.antt =====
-- logsvc_daemon/DefaultTimestampFactory.h and .cpp: the factory owns the generator that it reads the
-- time from, and loses it when it is moved from.
use logsvc.Common.{◌+◌, Bool, Option, none, some, if◌then◌else◌}
use logsvc.Common.Text.{Bytes}
use logsvc.Daemon.Timestamp.{timestamp}
use logsvc.Daemon.World.{World}
use logsvc.Errors.{ok}
use logsvc.Exec.{Exec, pure, crash, ◌>>=◌}
use logsvc.Platform.{Platform, PTime}

module _ (P : Platform) where
  pub record TimeGenerator : Type 0 where
    pub generate : Exec (World P) PTime

  -- microsec_clock::local_time()
  unfoldable pub generate : Exec (World P) PTime
  generate w = (ok (P.local_time w.readings), record w { readings = w.readings + 1 })

  -- DefaultTimeGenerator
  abbrev pub default_time_generator : TimeGenerator
  default_time_generator = record { generate = generate }

  pub record DefaultTimestampFactory : Type 0 where
    pub generator : Option TimeGenerator

  -- DefaultTimestampFactory()
  abbrev pub construct : DefaultTimestampFactory
  construct = record { generator = some default_time_generator }

  -- DefaultTimestampFactory(generator)
  abbrev pub of_generator : Option TimeGenerator → DefaultTimestampFactory
  of_generator generator = record { generator = generator }

  -- DefaultTimestampFactory(std::move(factory)): the new one, and what is left of the old.
  unfoldable pub move_construct :
      DefaultTimestampFactory → DefaultTimestampFactory × DefaultTimestampFactory
  move_construct factory = (record { generator = factory.generator }, record { generator = none })

  -- *this = std::move(factory), where `is_self` tells whether `factory` is `*this`
  unfoldable pub move_assign :
      Bool
      → DefaultTimestampFactory
      → DefaultTimestampFactory
      → DefaultTimestampFactory × DefaultTimestampFactory
  move_assign is_self this factory =
      if is_self
      then (this, factory)
      else (record { generator = factory.generator }, record { generator = none })

  generate_by : Option TimeGenerator → Exec (World P) PTime
  generate_by none = crash
  generate_by (some g) = g.generate

  unfoldable pub get_timestamp : DefaultTimestampFactory → Exec (World P) Bytes
  unfolding generate_by
  get_timestamp factory = do now ← generate_by factory.generator; pure (timestamp P now)
