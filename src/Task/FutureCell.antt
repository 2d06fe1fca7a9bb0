-- ===== src/Task/FutureCell.antt =====
-- norn-task/src/future_cell.rs: a future, or its output. Polling the future itself is user code; what
-- that poll came to is an argument. A panic while a future or an output is dropped aborts the
-- process there (`safe_drop_state`), and is left out here: destructors are taken to return.
use faser.Prelude.{Bool, true, false, Outcome, done, panic}

pub data TaskError : Type 0 where
  cancelled panicked : TaskError

pub data TaskResult (A : Type 0) : Type 0 where
  ok : A → TaskResult A
  err : TaskError → TaskResult A

-- `State<F>`; the future itself is opaque.
pub data FutureState (A : Type 0) : Type 0 where
  future : FutureState A
  future_result : TaskResult A → FutureState A
  empty : FutureState A

-- What `catch_unwind` of the future's `poll` gave.
pub data Polled (A : Type 0) : Type 0 where
  ready : A → Polled A
  pending : Polled A
  unwound : Polled A

unfoldable pub cancel : {A : Type 0} → FutureState A → FutureState A
cancel f = future_result (TaskResult.err TaskError.cancelled)

unfoldable pub destroy : {A : Type 0} → FutureState A → FutureState A
destroy f = empty

unfoldable pub take_output : {A : Type 0} → FutureState A → Outcome (TaskResult A × FutureState A)
take_output (future_result r) = done (r, empty)
take_output future = panic
take_output empty = panic

poll_future : {A : Type 0} → Polled A → Bool × FutureState A
poll_future (ready a) = (true, future_result (TaskResult.ok a))
poll_future pending = (false, future)
poll_future unwound = (true, future_result (TaskResult.err TaskError.panicked))

-- The flag is `Poll::is_ready`.
unfoldable pub poll : {A : Type 0} → Polled A → FutureState A → Outcome (Bool × FutureState A)
unfolding poll_future
poll p future = done (poll_future p)
poll p (future_result r) = panic
poll p empty = panic
