-- ===== src/Timer/Driver.antt =====
-- norn-timer/src/lib.rs, `Driver::park`, with the tick of clock.rs and `ParkMode` of
-- norn-executor/src/park/mod.rs. The time since the clock was started is in nanoseconds. The parker
-- inside is not modelled: `park` returns the mode that it is called with.
pub mod Waking
use faser.Prelude.{
  ℕ, ◌-◌, ◌*◌, ◌/◌, ◌^◌, ltb, min, if◌then◌else◌, Option, none, some, Outcome, done, ◌>>=◌, ◌>>◌,
  assert,
}
use faser.Timer.Level.{Expiration}
use faser.Timer.Wheels.{Wheels, advance}

pub data ParkMode : Type 0 where
  no_park next_completion : ParkMode
  timeout : ℕ → ParkMode

abbrev pub nanos_per_milli : ℕ
nanos_per_milli = 10 ^ 6

-- `Clock::instant_to_tick`: more than 64 bits of milliseconds would panic.
unfoldable pub instant_to_tick : ℕ → Outcome ℕ
instant_to_tick nanos = do
  assert (ltb (nanos / nanos_per_milli) (2 ^ 64))
  done (nanos / nanos_per_milli)

unfoldable pub tick_to_duration : ℕ → ℕ
tick_to_duration ticks = ticks * nanos_per_milli

-- The mode that is left when the next expiration is known.
unfoldable pub narrow : ℕ → Option Expiration → ParkMode → ParkMode
narrow ticks none mode = mode
narrow ticks (some x) (timeout t) = timeout (min t (tick_to_duration (x.deadline - ticks)))
narrow ticks (some x) no_park = timeout (tick_to_duration (x.deadline - ticks))
narrow ticks (some x) next_completion = timeout (tick_to_duration (x.deadline - ticks))

unfoldable pub park : ℕ → ParkMode → Wheels → Outcome (ParkMode × Wheels)
park nanos mode w = do
  ticks ← instant_to_tick nanos
  r ← advance ticks w
  done (narrow ticks r.0.1 (if ltb 0 r.0.0 then no_park else mode), r.1)
