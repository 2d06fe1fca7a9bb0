-- ===== src/Executor.antt =====
-- norn-executor/src/lib.rs and wakerfn.rs: `LocalExecutor::block_on`. A step is a poll of the root
-- future, a turn of the loop over the runnables, or a park; what user code and the parker do in it is
-- an input. `poll_root` is the flag of the `FutureHarness`, which its waker sets.
pub mod Sleeping
pub mod Timed
mod Tests
use faser.Prelude.{
  ℕ, Bool, true, false, if◌then◌else◌, Option, none, some, List, [], ◌∷◌, Outcome, done, panic,
  ◌>>=◌, ◌>>◌, assert,
}
use faser.Task.Queue.{TaskQueue, next, Act, act, acts, spawn}
use faser.Task.Queue
use faser.Timer.Driver.{ParkMode, no_park, next_completion}

pub data Phase : Type 0 where
  polling running finished : Phase
  parked : ParkMode → Phase

-- `interrupted` says that `needs_park` ended the loop over the runnables.
pub record Executor : Type 0 where
  pub taskqueue : TaskQueue
  pub poll_root : Bool
  pub phase : Phase
  pub interrupted : Bool

-- `LocalExecutor::new` and the start of `block_on`; `FutureHarness::new` sets the flag.
unfoldable pub block_on : TaskQueue → Executor
block_on q = record { taskqueue = q; poll_root = true; phase = polling; interrupted = false }

-- What user code, or the parker, does: acts on the task queue, and wakes of the root future.
pub record Effects : Type 0 where
  pub queue : List Act
  pub wakes_root : Bool

-- What happens in a step: its effects, if the root future is ready, what `needs_park` answers, and if
-- `park` returns without an error.
pub record Input : Type 0 where
  pub effects : Effects
  pub ready : Bool
  pub needs_park : Bool
  pub parks : Bool

unfoldable pub happen : Effects → Executor → Outcome Executor
happen x e = do
  q ← acts act x.queue e.taskqueue
  done (record e { taskqueue = q; poll_root = if x.wakes_root then true else e.poll_root })

abbrev pub enter_park : Executor → Executor
enter_park e = record e { phase = parked (if e.poll_root then no_park else next_completion) }

-- `FutureHarness::try_poll`.
unfoldable pub try_poll : Input → Executor → Outcome Executor
try_poll i e = elim e.poll_root [
  | true ↦ do
    e' ← happen i.effects (record e { poll_root = false })
    done (record e' { phase = if i.ready then finished else running; interrupted = false })
  | false ↦ done (record e { phase = running; interrupted = false })
]

abbrev pub run_in : Option (ℕ × TaskQueue) → Input → Executor → Outcome Executor
run_in none i e = done (enter_park e)
run_in (some r) i e = do
  e' ← happen i.effects (record e { taskqueue = r.1 })
  done (if i.needs_park then enter_park (record e' { interrupted = true }) else e')

-- A turn of the loop over the runnables.
unfoldable pub run_next : Input → Executor → Outcome Executor
run_next i e = run_in (next e.taskqueue) i e

-- `park`, and `unwrap`.
unfoldable pub park : Input → Executor → Outcome Executor
park i e = do e' ← happen i.effects e; assert i.parks; done (record e' { phase = polling })

abbrev pub advance_in : Phase → Input → Executor → Outcome Executor
advance_in polling i e = try_poll i e
advance_in running i e = run_next i e
advance_in finished i e = done e
advance_in (parked mode) i e = park i e

unfoldable pub advance : Input → Executor → Outcome Executor
advance i e = advance_in e.phase i e

-- The drop of the executor.
unfoldable pub shutdown : (ℕ → List Act) → Executor → Outcome Executor
shutdown drops e = do q ← Queue.shutdown drops e.taskqueue; done (record e { taskqueue = q })
