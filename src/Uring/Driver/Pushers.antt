-- ===== src/Uring/Driver/Pushers.antt =====
-- The push futures of a driver of norn-uring/src/driver that runs: what their owners and the driver do,
-- one after the other. A future is dropped by its owner when it is ready.
use faser.Prelude.{ℕ, Option, none, some, Outcome, done, ◌>>=◌}
use faser.Store.{update}
use faser.Timer.Driver.{ParkMode}
use faser.Uring.Driver.{Driver, Answer, submit_entries}
use faser.Uring.Driver.Push.{PushFuture, Pushed, pending, pushed, shutting_down}
use faser.Uring.Driver.Push
use faser.Uring.Entry.{Sqe}

pub record Pushers : Type 0 where
  pub driver : Driver
  pub futures : ℕ → Option PushFuture

abbrev pub placed : ℕ → Option PushFuture → Driver → Pushers → Pushers
placed i o d s = record { driver = d; futures = update s.futures i o }

abbrev pub gone : ℕ → PushFuture → Driver → Pushers → Outcome Pushers
gone i f d s = Push.drop i f d >>= λ d'. done (placed i none d' s)

abbrev pub settle : ℕ → Pushers → Pushed × PushFuture × Driver → Outcome Pushers
settle i s (pending, f, d) = done (placed i (some f) d s)
settle i s (pushed, f, d) = gone i f d s
settle i s (shutting_down, f, d) = gone i f d s

abbrev pub poll_in : Option PushFuture → ℕ → ℕ → Pushers → Outcome Pushers
poll_in none i k s = done s
poll_in (some f) i k s = Push.poll i k f s.driver >>= settle i s

abbrev pub drop_in : Option PushFuture → ℕ → Pushers → Outcome Pushers
drop_in none i s = done s
drop_in (some f) i s = gone i f s.driver s

pub data Action : Type 0 where
  starts : ℕ → Sqe → Action
  polls : ℕ → ℕ → Action
  drops : ℕ → Action
  submits : ParkMode → Answer → Action

unfoldable pub perform : Action → Pushers → Outcome Pushers
perform (starts i e) s = done (placed i (some (Push.new e)) s.driver s)
perform (polls i k) s = poll_in (s.futures i) i k s
perform (drops i) s = drop_in (s.futures i) i s
perform (submits mode a) s =
    submit_entries mode a s.driver >>= λ r. done (record s { driver = r.1 })
