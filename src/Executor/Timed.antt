-- ===== src/Executor/Timed.antt =====
-- `block_on` of norn-executor/src/lib.rs on a timer driver (norn-timer/src/lib.rs), with a `Sleep` as
-- its root future and no other task. The sleep is number 0, and the waker of the `FutureHarness` is
-- waker 0. What the clock shows when a park begins, where `Driver::park` reads it, is an input.
pub mod Waiting
pub mod Returning
mod Tests
use faser.Prelude.{
  ℕ, suc, Bool, true, false, ltb, Option, none, some, List, [], ◌∷◌, Outcome, done, ◌>>=◌,
}
use faser.Task.Queue
use faser.Timer.Wheels.{Completion}
use faser.Timer.Runtime.{Timers, poll, park}
use faser.Executor.{
  Phase, polling, running, finished, parked, Executor, Input, block_on, try_poll, run_next, advance,
}
use faser.Executor

pub record Timed : Type 0 where
  pub executor : Executor
  pub timers : Timers

unfoldable pub start : Timers → Timed
start t = record { executor = block_on Queue.new; timers = t }

-- What happens in a step: if the root future is ready, and if it is woken.
abbrev pub step : Bool → Bool → Input
step ready woken = record {
  effects = record { queue = []; wakes_root = woken };
  ready = ready;
  needs_park = false;
  parks = true;
}

abbrev pub is_some : Option Completion → Bool
is_some none = false
is_some (some c) = true

-- `FutureHarness::try_poll`.
unfoldable pub poll_root : Timed → Outcome (Option Completion × Timed)
poll_root s = elim s.executor.poll_root [
  | true ↦ do
    r ← poll 0 0 s.timers
    e ← try_poll (step (is_some r.0) false) s.executor
    done (r.0, record { executor = e; timers = r.1 })
  | false ↦ do e ← try_poll (step false false) s.executor; done (none, record s { executor = e })
]

abbrev pub count : List ℕ → ℕ
count [] = 0
count (k ∷ ks) = suc (count ks)

-- If the sleep woke its task meanwhile.
abbrev pub rang : Timers → Timers → Bool
rang t t' = ltb (count ((t.sleeps 0).woken)) (count ((t'.sleeps 0).woken))

abbrev pub park_in : Phase → ℕ → Timed → Outcome Timed
park_in (parked mode) nanos s = do
  r ← park nanos mode s.timers
  e ← Executor.park (step false (rang s.timers r.1)) s.executor
  done (record { executor = e; timers = r.1 })
park_in phase nanos s = done s

-- The loop over the runnables, of which there are none, and the park.
unfoldable pub turn : ℕ → Timed → Outcome Timed
turn nanos s = do
  e ← run_next (step false false) s.executor
  park_in e.phase nanos (record s { executor = e })

-- Rounds of `block_on`, for the instants at which the parks begin, with the answer of the last poll.
unfoldable pub rounds : List ℕ → Timed → Outcome (Option Completion × Timed)
rounds [] s = poll_root s
rounds (n ∷ ns) s =
    poll_root s >>= λ r. elim r.0 [ some c ↦ done r | none ↦ turn n r.1 >>= rounds ns ]
