-- ===== src/Task/Wakeups.antt =====
-- Wake-ups in norn-task/src/task_cell.rs: a task that was notified and is not complete is with the
-- scheduler, or is being polled and goes back there.
use faser.Prelude.{◌≡◌, true, false, Ensures, arith}
use faser.Task.FutureCell.{Polled}
use faser.Task.Cell.{World}
use faser.Task.Cell
use faser.Task.World.{
  Action, run, returns, clone_waker, wake, wake_by_ref, drop_waker, poll_join, abort, drop_join,
  shutdown, drop_runnable, Permitted, perform,
}
use faser.Task.World.Safety.{Inv}

-- A notification that has not been consumed has a `Runnable`, and a cancelled task is notified.
pub record Scheduled {A : Type 0} (w : World A) : Type 0 where
  pub queued :
      w.task.state.notified ≡ true
      → w.task.state.complete ≡ false
      → w.polling ≡ false
      → w.runqueue ≡ 1
  pub cancel_notified :
      w.task.state.cancelled ≡ true → w.task.state.complete ≡ false → w.task.state.notified ≡ true

-- What a scheduler may throw away: the `Runnable` of a task that is complete.
abbrev pub Keeps : {A : Type 0} → Action A → World A → Type 0
Keeps drop_runnable w = w.task.state.complete ≡ true
Keeps _ w = Unit {0}

returns-Scheduled :
    {A : Type 0} (r : Polled A) (w : World A)
    → Inv w
    → Scheduled w
    → Permitted (returns r) w
    → Ensures Scheduled (perform (returns r) w)
unfolding perform Cell.polled
returns-Scheduled (Polled.ready a) w v s p = ground arith
returns-Scheduled Polled.pending w v s p = ground arith
returns-Scheduled Polled.unwound w v s p = ground arith

-- No action loses a wake-up: a task that is notified, not complete and not being polled has its
-- runnable with the scheduler, and a cancelled task that is not complete is notified, after every
-- action as before it, if a scheduler drops the runnable of completed tasks only.
pub perform-Scheduled :
    {A : Type 0} (a : Action A) (w : World A)
    → Inv w
    → Scheduled w
    → Permitted a w
    → Keeps a w
    → Ensures Scheduled (perform a w)
unfolding perform Cell.poll Cell.waker_clone Cell.waker_wake_val Cell.waker_wake_ref Cell.drop_ref
    Cell.try_read_output Cell.abort Cell.drop_join_handle
perform-Scheduled run w v s p k = ground arith
perform-Scheduled (returns r) w v s p k = returns-Scheduled r w v s p
perform-Scheduled clone_waker w v s p k = ground arith
perform-Scheduled wake w v s p k = ground arith
perform-Scheduled wake_by_ref w v s p k = ground arith
perform-Scheduled drop_waker w v s p k = ground arith
perform-Scheduled (poll_join j) w v s p k = ground arith
perform-Scheduled abort w v s p k = ground arith
perform-Scheduled drop_join w v s p k = ground arith
perform-Scheduled shutdown w v s p k = ground arith
perform-Scheduled drop_runnable w v s p k = ground arith
