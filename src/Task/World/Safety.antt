-- ===== src/Task/World/Safety.antt =====
-- The bookkeeping behind the unsafe code of norn-task/src/task_cell.rs: the reference count is the
-- number of handles, and the memory lives exactly as long as one of them.
use faser.Prelude.{◌≤◌, ◌<◌, ◌≡◌, ◌≢◌, true, false, Ensures, arith}
use faser.Task.FutureCell.{FutureState, Polled}
use faser.Task.Cell.{World}
use faser.Task.Cell
use faser.Task.World.{
  Action, run, returns, clone_waker, wake, wake_by_ref, drop_waker, poll_join, abort, drop_join,
  shutdown, drop_runnable, Permitted, perform, refs,
}

pub record Inv {A : Type 0} (w : World A) : Type 0 where
  pub counted : w.task.state.refcount ≡ refs w
  pub live : 0 < refs w → w.freed ≡ false
  pub released : refs w ≡ 0 → w.freed ≡ true
  pub joined : w.task.state.join_handle ≡ w.join
  pub running : w.task.state.running ≡ w.polling
  pub one_runnable : w.runqueue ≤ 1
  pub queued_notified : 0 < w.runqueue → w.task.state.notified ≡ true
  pub queued_idle : 0 < w.runqueue → w.polling ≡ false
  pub complete_idle : w.task.state.complete ≡ true → w.polling ≡ false
  pub future_there : w.task.state.complete ≡ false → w.task.future ≡ FutureState.future
  pub held : w.task.state.complete ≡ false → w.registered ≡ true
  pub future_gone : w.task.state.complete ≡ true → w.task.future ≢ FutureState.future

-- A run of the future up to its next suspension needs a lemma of its own, for its many branches.
returns-Inv :
    {A : Type 0} (r : Polled A) (w : World A)
    → Inv w
    → Permitted (returns r) w
    → Ensures Inv (perform (returns r) w)
unfolding perform Cell.polled
returns-Inv (Polled.ready a) w v p = ground arith
returns-Inv Polled.pending w v p = ground arith
returns-Inv Polled.unwound w v p = ground arith

-- Every action on a task (run, the return of its poll, clone, wake, drop of a waker, poll, abort
-- and drop of the join handle, shutdown, drop of a runnable) keeps the invariant: it ends with no
-- failed assertion and no access to freed memory, the reference count is the number of handles
-- out, the memory is freed exactly when there is none, at most one runnable is queued, and the
-- flags agree with the stage of the future. The conditions: the handle that the action needs is
-- there, a runnable is run only between polls, the join handle is not polled after its output was
-- taken, the task set is not shut down while the task is being polled, and an action that makes a
-- reference finds the count at least two below 2^32.
pub perform-Inv :
    {A : Type 0} (a : Action A) (w : World A) → Inv w → Permitted a w → Ensures Inv (perform a w)
unfolding perform Cell.poll Cell.waker_clone Cell.waker_wake_val Cell.waker_wake_ref Cell.drop_ref
    Cell.try_read_output Cell.abort Cell.drop_join_handle
perform-Inv run w v p = ground arith
perform-Inv (returns r) w v p = returns-Inv r w v p
perform-Inv clone_waker w v p = ground arith
perform-Inv wake w v p = ground arith
perform-Inv wake_by_ref w v p = ground arith
perform-Inv drop_waker w v p = ground arith
perform-Inv (poll_join k) w v p = ground arith
perform-Inv abort w v p = ground arith
perform-Inv drop_join w v p = ground arith
perform-Inv shutdown w v p = ground arith
perform-Inv drop_runnable w v p = ground arith
