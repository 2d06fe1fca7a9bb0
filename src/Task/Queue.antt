-- ===== src/Task/Queue.antt =====
-- norn-task/src/taskqueue.rs and tasks.rs: a `TaskQueue` with its `TaskSet`. A task is a number, and
-- what one does to the queue while it runs, or while its future is dropped, is a list of acts.
-- `scheduled` are the runnables that were queued, `started` those that `next` handed out and `stopped`
-- the tasks that were shut down, each with the oldest first.
pub mod Order
use faser.Prelude.{
  ℕ, zero, suc, ◌+◌, ◌-◌, Bool, true, false, ltb, ◌==◌, if◌then◌else◌, Option, none, some, List, [],
  ◌∷◌, ◌++◌, Outcome, done, panic, ◌>>=◌, ◌>>◌, assert,
}

pub record TaskSet : Type 0 where
  pub list : List ℕ
  pub closed : Bool
  pub size : ℕ

pub record TaskQueue : Type 0 where
  pub runqueue : List ℕ
  pub taskset : TaskSet
  pub scheduled : List ℕ
  pub started : List ℕ
  pub stopped : List ℕ

unfoldable pub new : TaskQueue
new = record {
  runqueue = [];
  taskset = record { list = []; closed = false; size = 0 };
  scheduled = [];
  started = [];
  stopped = [];
}

-- `Schedule::schedule`.
unfoldable pub schedule : ℕ → TaskQueue → TaskQueue
schedule t q = record q { runqueue = q.runqueue ++ (t ∷ []); scheduled = q.scheduled ++ (t ∷ []) }

-- `TaskSet::bind`: if there is a runnable. A closed set shuts the task down.
unfoldable pub bind : ℕ → TaskQueue → Bool × TaskQueue
bind t q = if q.taskset.closed then (false, record q { stopped = q.stopped ++ (t ∷ []) }) else (
  true,
  record q {
    taskset = record (q.taskset) { list = q.taskset.list ++ (t ∷ []); size = q.taskset.size + 1 };
  },
)

unfoldable pub spawn : ℕ → TaskQueue → TaskQueue
spawn t q = let (bound, q') = bind t q in if bound then schedule t q' else q'

-- `List::remove`, by the pointer.
unfoldable pub unlink : ℕ → List ℕ → Option (List ℕ)
unlink t [] = none
unlink t (x ∷ xs) =
    let rest = unlink t xs in
    if x == t then some xs else elim rest [ none ↦ none | some ys ↦ some (x ∷ ys) ]

abbrev pub removed : Option (List ℕ) → TaskQueue → Outcome TaskQueue
removed none q = done q
removed (some ts) q = do
  assert (ltb 0 q.taskset.size)
  done (record q { taskset = record (q.taskset) { list = ts; size = q.taskset.size - 1 } })

-- `TaskSet::remove`, for `Schedule::unbind`.
unfoldable pub remove : ℕ → TaskQueue → Outcome TaskQueue
remove t q = removed (unlink t q.taskset.list) q

abbrev pub next_in : List ℕ → TaskQueue → Option (ℕ × TaskQueue)
next_in [] q = none
next_in (t ∷ ts) q = some (t, record q { runqueue = ts; started = q.started ++ (t ∷ []) })

-- `TaskQueue::next`.
unfoldable pub next : TaskQueue → Option (ℕ × TaskQueue)
next q = next_in q.runqueue q

pub data Act : Type 0 where
  spawns schedules unbinds : ℕ → Act

unfoldable pub act : Act → TaskQueue → Outcome TaskQueue
act (spawns t) q = done (spawn t q)
act (schedules t) q = done (schedule t q)
act (unbinds t) q = remove t q

-- The same while `TaskSet::shutdown` has borrowed the list of the set.
unfoldable pub act_borrowed : Act → TaskQueue → Outcome TaskQueue
act_borrowed (spawns t) q = panic
act_borrowed (schedules t) q = done (schedule t q)
act_borrowed (unbinds t) q = panic

unfoldable pub acts :
    (Act → TaskQueue → Outcome TaskQueue) → List Act → TaskQueue → Outcome TaskQueue
acts f [] q = done q
acts f (a ∷ more) q = f a q >>= acts f more

-- The loop of `TaskSet::shutdown`; `drops t` is what the drop of the future of `t` does.
unfoldable pub shutdown_all : (ℕ → List Act) → List ℕ → TaskQueue → Outcome TaskQueue
shutdown_all drops [] q = done q
shutdown_all drops (t ∷ ts) q = do
  q' ←
      acts act_borrowed (drops t)
        (record q { taskset = record (q.taskset) { list = ts }; stopped = q.stopped ++ (t ∷ []) })
  assert (ltb 0 q'.taskset.size)
  shutdown_all drops ts (record q' { taskset = record (q'.taskset) { size = q'.taskset.size - 1 } })

-- `TaskQueue::shutdown`: the runnables that are left are dropped.
unfoldable pub shutdown : (ℕ → List Act) → TaskQueue → Outcome TaskQueue
shutdown drops q = do
  q' ←
      shutdown_all drops q.taskset.list
        (record q { taskset = record (q.taskset) { closed = true } })
  done (record q' { runqueue = [] })
