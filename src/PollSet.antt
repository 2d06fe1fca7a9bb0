-- ===== src/PollSet.antt =====
-- norn-util/src/pollset.rs: a set of tasks that an outer task polls. Its run queue and task set are
-- those of `TaskQueue`; `woken` are the wakers that were woken, the latest first. What a task does
-- while it runs is a list of acts.
pub mod Pending
mod Tests
use faser.Prelude.{ℕ, Option, none, some, List, [], ◌∷◌, Outcome, done, no_fuel, ◌>>=◌}
use faser.Task.Queue.{TaskQueue, Act, spawns, schedules, unbinds}
use faser.Task.Queue

pub record PollSet : Type 0 where
  pub queue : TaskQueue
  pub waker : Option ℕ
  pub woken : List ℕ

unfoldable pub new : PollSet
new = record { queue = Queue.new; waker = none; woken = [] }

unfoldable pub spawn : ℕ → PollSet → PollSet
spawn t p = record p { queue = Queue.spawn t p.queue }

abbrev pub wake : Option ℕ → List ℕ → List ℕ
wake none ws = ws
wake (some k) ws = k ∷ ws

-- `Schedule::schedule`: the waker is taken and woken.
unfoldable pub schedule : ℕ → PollSet → PollSet
schedule t p = record p {
  queue = Queue.schedule t p.queue;
  waker = none;
  woken = wake p.waker p.woken;
}

unfoldable pub unbind : ℕ → PollSet → Outcome PollSet
unbind t p = Queue.remove t p.queue >>= λ q. done (record p { queue = q })

unfoldable pub act : Act → PollSet → Outcome PollSet
act (spawns t) p = done (spawn t p)
act (schedules t) p = done (schedule t p)
act (unbinds t) p = unbind t p

unfoldable pub acts : List Act → PollSet → Outcome PollSet
acts [] p = done p
acts (a ∷ more) p = act a p >>= acts more

abbrev pub run_in :
    (PollSet → Outcome PollSet) → ℕ → Option (ℕ × TaskQueue) → PollSet → Outcome PollSet
run_in f k none p = done (record p { waker = some k })
run_in f k (some r) p = f (record p { queue = r.1 })

-- The loop of `poll_tasks` with the waker `k`, on what the tasks that it runs do, one after another.
unfoldable pub poll_tasks : List (List Act) → ℕ → PollSet → Outcome PollSet
poll_tasks [] k p = run_in (λ p'. no_fuel) k (Queue.next p.queue) p
poll_tasks (x ∷ xs) k p = run_in (λ p'. acts x p' >>= poll_tasks xs k) k (Queue.next p.queue) p
