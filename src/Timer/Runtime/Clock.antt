-- ===== src/Timer/Runtime/Clock.antt =====
-- norn-timer/src/clock.rs. An instant is in nanoseconds; `Instant::now` is an input. The
-- clones of a simulated clock share its offset and are one clock here.
use faser.Prelude.{ℕ, ◌+◌, ◌-◌, Outcome, done, panic}
use faser.Timer.Driver.{instant_to_tick}

pub data TimeSource : Type 0 where
  system : TimeSource
  simulated : ℕ → TimeSource

pub record Clock : Type 0 where
  pub start : ℕ
  pub time : TimeSource

unfoldable pub system_clock : ℕ → Clock
system_clock instant = record { start = instant; time = system }

unfoldable pub simulated_clock : ℕ → Clock
simulated_clock instant = record { start = instant; time = simulated 0 }

abbrev pub now_in : TimeSource → ℕ → ℕ → ℕ
now_in system start instant = instant
now_in (simulated offset) start instant = start + offset

-- `Clock::now`.
unfoldable pub now : ℕ → Clock → ℕ
now instant c = now_in c.time c.start instant

-- How long the clock runs; an instant before its start counts as the start.
unfoldable pub running : ℕ → Clock → ℕ
running instant c = now instant c - c.start

-- `Clock::tick`.
unfoldable pub tick : ℕ → Clock → Outcome ℕ
tick instant c = instant_to_tick (running instant c)

abbrev pub advance_in : TimeSource → ℕ → Clock → Outcome Clock
advance_in system nanos c = panic
advance_in (simulated offset) nanos c = done (record c { time = simulated (offset + nanos) })

-- `Clock::advance`.
unfoldable pub advance : ℕ → Clock → Outcome Clock
advance nanos c = advance_in c.time nanos c
