-- ===== src/Task/Phases.antt =====
-- The contract of a task, apart from flags, counts and memory: five phases and whether the task was
-- cancelled. The code of norn-task/src/task_cell.rs and state.rs is held against it.
use faser.Prelude.{◌≡◌, Bool, true, false, Ensures, arith, if◌then◌else◌, ltb}
use faser.Task.FutureCell.{Polled}
use faser.Task.Cell.{World}
use faser.Task.Cell
use faser.Task.World.{
  Action, run, returns, clone_waker, wake, wake_by_ref, drop_waker, poll_join, abort, drop_join,
  shutdown, drop_runnable, Permitted, perform,
}
use faser.Task.World.Safety.{Inv}
use faser.Task.Wakeups.{Scheduled, Keeps}

pub data Phase : Type 0 where
  idle queued polling renotified completed : Phase

pub record Lifecycle : Type 0 where
  pub phase : Phase
  pub cancelled : Bool

abbrev pub wake_phase : Phase → Phase
wake_phase idle = queued
wake_phase polling = renotified
wake_phase p = p

abbrev pub run_phase : Bool → Phase → Phase
run_phase false queued = polling
run_phase true queued = completed
run_phase c p = p

abbrev pub suspend_phase : Bool → Phase → Phase
suspend_phase false polling = idle
suspend_phase false renotified = queued
suspend_phase c p = completed

abbrev pub is_completed : Phase → Bool
is_completed completed = true
is_completed p = false

-- The machine of the contract.
unfoldable pub next : {A : Type 0} → Action A → Lifecycle → Lifecycle
next run l = record l { phase = run_phase l.cancelled l.phase }
next (returns Polled.pending) l = record l { phase = suspend_phase l.cancelled l.phase }
next (returns r) l = record l { phase = completed }
next wake l = record l { phase = wake_phase l.phase }
next wake_by_ref l = record l { phase = wake_phase l.phase }
next abort l =
    if is_completed l.phase then l else record { phase = wake_phase l.phase; cancelled = true }
next shutdown l = record { phase = completed; cancelled = true }
next a l = l

-- What the contract sees of a task.
abbrev pub view : {A : Type 0} → World A → Lifecycle
view w = record {
  phase =
      if w.task.state.complete
      then completed
      else if w.polling
      then if w.task.state.notified then renotified else polling
      else if ltb 0 w.runqueue
      then queued
      else idle;
  cancelled = w.task.state.cancelled;
}

returns-next :
    {A : Type 0} (r : Polled A) (w : World A)
    → Inv w
    → Scheduled w
    → Permitted (returns r) w
    → Ensures (λ w'. view w' ≡ next (returns r) (view w)) (perform (returns r) w)
unfolding perform Cell.polled next
returns-next (Polled.ready a) w v s p = ground arith
returns-next Polled.pending w v s p = ground arith
returns-next Polled.unwound w v s p = ground arith

-- Seen as a phase (idle, queued, polling, renotified, completed) and whether it was cancelled, a
-- task that satisfies the invariants takes, at every permitted action, exactly the step of the
-- abstract machine `next`. Permitted means that the handle that the action needs is there, a
-- runnable is run only between polls, the join handle is not polled after its output was taken,
-- the task set is not shut down while the task is being polled, an action that makes a reference
-- finds the count at least two below 2^32, and a scheduler drops the runnable of completed tasks
-- only.
pub perform-next :
    {A : Type 0} (a : Action A) (w : World A)
    → Inv w
    → Scheduled w
    → Permitted a w
    → Keeps a w
    → Ensures (λ w'. view w' ≡ next a (view w)) (perform a w)
unfolding perform Cell.poll Cell.waker_clone Cell.waker_wake_val Cell.waker_wake_ref Cell.drop_ref
    Cell.try_read_output Cell.abort Cell.drop_join_handle next
perform-next run w v s p k = ground arith
perform-next (returns r) w v s p k = returns-next r w v s p
perform-next clone_waker w v s p k = ground arith
perform-next wake w v s p k = ground arith
perform-next wake_by_ref w v s p k = ground arith
perform-next drop_waker w v s p k = ground arith
perform-next (poll_join j) w v s p k = ground arith
perform-next abort w v s p k = ground arith
perform-next drop_join w v s p k = ground arith
perform-next shutdown w v s p k = ground arith
perform-next drop_runnable w v s p k = ground arith
