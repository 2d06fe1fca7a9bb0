-- ===== src/Task/Results.antt =====
-- How the output of a task comes to its join handle: norn-task/src/task_cell.rs, future_cell.rs and
-- header.rs.
use faser.Prelude.{
  ℕ, ◌≡◌, refl, Bool, true, false, Option, none, some, List, ◌∷◌, Ensures, arith, panic,
  if◌then◌else◌, Bool-cases, inl, inr,
}
use faser.Task.FutureCell.{FutureState, TaskResult, TaskError, Polled}
use faser.Task.Cell.{World}
use faser.Task.Cell
use faser.Task.World.{
  Action, run, returns, clone_waker, wake, wake_by_ref, drop_waker, poll_join, abort, drop_join,
  shutdown, drop_runnable, Permitted, perform,
}
use faser.Task.World.Safety.{Inv}

-- The outcome of a task that has just completed with `r`: it has left the task set; a join handle
-- that is there will read `r`, and the waker that it left is woken; without one, `r` is dropped.
abbrev notified_of : {A : Type 0} → World A → List ℕ
notified_of w =
    if w.join then elim (w.task.waker) [ none ↦ w.woken | some k ↦ k ∷ w.woken ] else w.woken

pub record Completed {A : Type 0} (r : TaskResult A) (w w' : World A) : Type 0 where
  pub flag : w'.task.state.complete ≡ true
  pub unbound : w'.registered ≡ false
  pub output : w'.task.future ≡ (if w.join then FutureState.future_result r else FutureState.empty)
  pub told : w'.woken ≡ notified_of w

-- The task completes with the value, or the panic, that its future came to.
abbrev pub outcome_of : {A : Type 0} → Polled A → Option (TaskResult A)
outcome_of (Polled.ready a) = some (TaskResult.ok a)
outcome_of Polled.pending = none
outcome_of Polled.unwound = some (TaskResult.err TaskError.panicked)

-- When the poll of a future returns a value or panics, the task completes with that value or that
-- error, also if it was aborted during the poll: it is marked complete, leaves the task set, keeps
-- the result if there is a join handle and drops it otherwise, and wakes the waker that the join
-- handle left. The reference count is at least two below 2^32.
pub returns-Completed :
    {A : Type 0} (p : Polled A) (r : TaskResult A) (w : World A)
    → outcome_of p ≡ some r
    → Inv w
    → Permitted (returns p) w
    → Ensures (Completed r w) (perform (returns p) w)
unfolding perform Cell.polled
returns-Completed (Polled.ready a) r w e v p = ground arith
returns-Completed Polled.pending r w e v p = cc
returns-Completed Polled.unwound r w e v p = ground arith

-- The points at which the executor looks at a task.
abbrev pub Meets : {A : Type 0} → Action A → Type 0
Meets run = Unit {0}
Meets (returns Polled.pending) = Unit {0}
Meets a = ⊥

-- A task that was cancelled and is not complete completes with the error `cancelled` when its
-- runnable is run next, or when its poll returns pending.
pub cancelled-Completed :
    {A : Type 0} (a : Action A) (w : World A)
    → Meets a
    → Inv w
    → w.task.state.cancelled ≡ true
    → w.task.state.complete ≡ false
    → Permitted a w
    → Ensures (Completed (TaskResult.err TaskError.cancelled) w) (perform a w)
unfolding perform Cell.poll Cell.polled
cancelled-Completed run w e v c n p = ground arith
cancelled-Completed (returns Polled.pending) w e v c n p = elim (Bool-cases w.join) [
  | inl j ↦ ground arith
  | inr j ↦ ground arith
]
cancelled-Completed a w e v c n p = absurd e

-- What a poll of the join handle answers to `k`, by the flag COMPLETE and the stage of the future.
abbrev pub Answers :
    {A : Type 0} → ℕ → Bool → FutureState A → World A → Option (TaskResult A) × World A → Type 0
Answers k false f w x = (x.0 ≡ none) × (x.1.task.waker ≡ some k) × (x.1.task.future ≡ w.task.future)
Answers k true (FutureState.future_result r) w x =
    (x.0 ≡ some r) × (Cell.try_read_output k x.1 ≡ panic)
Answers k true f w x = ⊥

try_read_complete :
    {A : Type 0} (k : ℕ) (w : World A) (f : FutureState A)
    → w.task.future ≡ f
    → Inv w
    → Permitted (poll_join k) w
    → w.task.state.complete ≡ true
    → Ensures (Answers k true f w) (Cell.try_read_output k w)
unfolding Cell.try_read_output
try_read_complete k w FutureState.future e v p c = absurd (v.future_gone c e)
try_read_complete k w (FutureState.future_result r) e v p c = ground arith
try_read_complete k w FutureState.empty e v p c = absurd (p.1 e)

try_read_by :
    {A : Type 0} (k : ℕ) (w : World A) (c : Bool)
    → w.task.state.complete ≡ c
    → Inv w
    → Permitted (poll_join k) w
    → Ensures (Answers k c (w.task.future) w) (Cell.try_read_output k w)
unfolding Cell.try_read_output
try_read_by k w true c v p = try_read_complete k w (w.task.future) refl v p c
try_read_by k w false c v p = ground arith

-- A poll of the join handle is pending while the task is not complete, and then leaves the waker
-- and the future as it is; of a complete task it returns the result, and one more poll panics.
pub try_read_output_lem :
    {A : Type 0} (k : ℕ) (w : World A)
    → Inv w
    → Permitted (poll_join k) w
    → Ensures (Answers k (w.task.state.complete) (w.task.future) w) (Cell.try_read_output k w)
try_read_output_lem k w v p = try_read_by k w (w.task.state.complete) refl v p

abbrev pub Reads : {A : Type 0} → Action A → Type 0
Reads (poll_join k) = Unit {0}
Reads a = ⊥

-- Of a complete task, every action except a poll of the join handle leaves it complete and leaves
-- its stored output as it is, unless the action drops the last handle: then the memory is freed
-- and the output destroyed. The conditions: the handle that the action needs is there, a runnable
-- is run only between polls, and an action that makes a reference finds the count at least two
-- below 2^32.
pub output_kept :
    {A : Type 0} (a : Action A) (w : World A)
    → ¬ Reads a
    → Inv w
    → w.task.state.complete ≡ true
    → Permitted a w
    → Ensures
        (λ w'.
          (w'.task.state.complete ≡ true)
          × (w'.task.future ≡ (if w'.freed then FutureState.empty else w.task.future)))
        (perform a w)
unfolding perform Cell.poll Cell.waker_clone Cell.waker_wake_val Cell.waker_wake_ref Cell.drop_ref
    Cell.try_read_output Cell.abort Cell.drop_join_handle Cell.polled
output_kept run w n v c p = ground arith
output_kept (returns r) w n v c p = ground arith
output_kept clone_waker w n v c p = ground arith
output_kept wake w n v c p = ground arith
output_kept wake_by_ref w n v c p = ground arith
output_kept drop_waker w n v c p = ground arith
output_kept (poll_join j) w n v c p = absurd (n tt)
output_kept abort w n v c p = ground arith
output_kept drop_join w n v c p = ground arith
output_kept shutdown w n v c p = ground arith
output_kept drop_runnable w n v c p = ground arith
