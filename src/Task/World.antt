-- ===== src/Task/World.antt =====
-- What the holders of a task may do with it: the calls of norn-task/src/schedule.rs, join.rs and
-- tasks.rs, and of the standard library's `Waker`, as actions on one task. Ownership decides which
-- actions are there, as it does in Rust: a handle that is gone cannot be used.
pub mod Safety
use faser.Prelude.{
  ℕ, ◌+◌, ◌-◌, ◌<◌, ◌≡◌, ◌≢◌, true, false, Outcome, done, panic, fault, no_fuel, count_if,
}
use faser.Task.State.{u32_limit}
use faser.Task.FutureCell.{FutureState, Polled}
use faser.Task.Cell.{TaskCell, World, M, ◌>>◌}
use faser.Task.Cell

pub data Action (A : Type 0) : Type 0 where
  run : Action A
  returns : Polled A → Action A
  clone_waker wake wake_by_ref drop_waker : Action A
  poll_join : ℕ → Action A
  abort drop_join : Action A
  shutdown drop_runnable : Action A

-- The references that are out.
abbrev pub refs : {A : Type 0} → World A → ℕ
refs w =
    w.runqueue
    + w.wakers
    + count_if w.registered
    + count_if w.join
    + count_if w.polling
    + count_if w.polling

-- While the future is being polled it sees the waker of its context, which it may clone and wake by
-- reference, and which is not its own to drop.
abbrev pub sees_waker : {A : Type 0} → World A → ℕ
sees_waker w = w.wakers + count_if w.polling

-- The handle that the action needs is there. `run` takes the `Runnable` from the scheduler between
-- polls, and a join handle is not polled again after it was ready. A set is not shut down from
-- within its own task. New references are made only while the count has room.
abbrev pub Permitted : {A : Type 0} → Action A → World A → Type 0
Permitted run w = (0 < w.runqueue) × (w.polling ≡ false) × (refs w + 1 < u32_limit)
Permitted (returns p) w = (w.polling ≡ true) × (refs w + 1 < u32_limit)
Permitted clone_waker w = (0 < sees_waker w) × (refs w + 1 < u32_limit)
Permitted wake w = (0 < w.wakers) × (refs w + 1 < u32_limit)
Permitted wake_by_ref w = (0 < sees_waker w) × (refs w + 1 < u32_limit)
Permitted drop_waker w = 0 < w.wakers
Permitted (poll_join k) w = (w.join ≡ true) × (w.task.future ≢ FutureState.empty)
Permitted abort w = (w.join ≡ true) × (refs w + 1 < u32_limit)
Permitted drop_join w = w.join ≡ true
Permitted shutdown w = (w.registered ≡ true) × (w.polling ≡ false)
Permitted drop_runnable w = 0 < w.runqueue

abbrev pub forget : {A B : Type 0} → Outcome (B × World A) → Outcome (World A)
forget (done (b, w)) = done w
forget panic = panic
forget fault = fault
forget no_fuel = no_fuel

-- `TaskSet::shutdown` for this task: it is popped from the list, shut down and dropped.
unfoldable pub shutdown_task : {A : Type 0} → M A (Unit {0})
unfolding Cell.shutdown Cell.drop_ref
shutdown_task w = (Cell.shutdown >> Cell.drop_ref) (record w { registered = false })

unfoldable pub perform : {A : Type 0} → Action A → World A → Outcome (World A)
unfolding shutdown_task
perform run w = forget (Cell.poll (record w { runqueue = w.runqueue - 1 }))
perform (returns p) w = forget (Cell.polled p (record w { polling = false }))
perform clone_waker w = forget (Cell.waker_clone (record w { wakers = w.wakers + 1 }))
perform wake w = forget (Cell.waker_wake_val (record w { wakers = w.wakers - 1 }))
perform wake_by_ref w = forget (Cell.waker_wake_ref w)
perform drop_waker w = forget (Cell.drop_ref (record w { wakers = w.wakers - 1 }))
perform (poll_join k) w = forget (Cell.try_read_output k w)
perform abort w = forget (Cell.abort w)
perform drop_join w = forget (Cell.drop_join_handle (record w { join = false }))
perform shutdown w = forget (shutdown_task w)
perform drop_runnable w = forget (Cell.drop_ref (record w { runqueue = w.runqueue - 1 }))
