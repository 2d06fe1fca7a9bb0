-- ===== src/Task/Spawn.antt =====
-- norn-task/src/tasks.rs, `TaskSet::bind`, for one task: what a freshly bound task looks like, and
-- the worlds that its holders can reach from there.
use faser.Prelude.{ℕ, ◌≡◌, subst, Bool, true, false, none, some, [], Outcome, done, Ensures, arith}
use faser.Task.State
use faser.Task.FutureCell.{FutureState, TaskResult, TaskError}
use faser.Task.Cell.{World, ◌>>◌}
use faser.Task.Cell
use faser.Task.World.{Action, Permitted, perform, forget, refs}
use faser.Task.World.Safety.{Inv, perform-Inv}

-- `TaskCell::allocate`: one reference for the caller, and one for the join handle. The caller's
-- reference stands for the `Runnable`, which the scheduler receives.
unfoldable pub allocate : {A : Type 0} → World A
unfolding State.new
allocate = record {
  task = record { state = State.new; waker = none; future = FutureState.future };
  freed = false;
  runqueue = 1;
  registered = false;
  join = true;
  wakers = 0;
  polling = false;
  woken = [];
}

-- The argument is `TaskSet::is_closed`. A closed set shuts the task down and drops the reference,
-- so that there is no `Runnable`; an open one takes a clone into its list.
unfoldable pub bind : {A : Type 0} → Bool → Outcome (World A)
unfolding allocate Cell.shutdown Cell.drop_ref Cell.waker_clone
bind true = forget ((Cell.shutdown >> Cell.drop_ref) (record allocate { runqueue = 0 }))
bind false = forget (Cell.waker_clone (record allocate { registered = true }))

pub data Reach {A : Type 0} (closed : Bool) : World A → Type 0 where
  spawned : {w : World A} → bind closed ≡ done w → Reach closed w
  acts :
      {w w' : World A} (a : Action A)
      → Reach closed w
      → Permitted a w
      → perform a w ≡ done w'
      → Reach closed w'

bind-Inv : (A : Type 0) (closed : Bool) → Ensures Inv (bind {A = A} closed)
unfolding bind
bind-Inv A true = ground arith
bind-Inv A false = ground arith

Ensures-done :
    {A : Type 0} (P : A → Type 0) {m : Outcome A} {a : A} → m ≡ done a → Ensures P m → P a
Ensures-done P e h = subst (Ensures P) e h

-- Every task that its holders can reach by permitted actions from `TaskSet::bind`, on an open or a
-- closed set, satisfies the invariant of reference count, memory, flags and future.
pub Reach-Inv : {A : Type 0} {closed : Bool} {w : World A} → Reach closed w → Inv w
Reach-Inv {A} {closed} (spawned e) = Ensures-done Inv e (bind-Inv A closed)
Reach-Inv (acts {w} a r p e) = Ensures-done Inv e (perform-Inv a w (Reach-Inv r) p)

-- A task bound to a closed set has no reference left but its join handle, whose first poll returns
-- the error `cancelled`.
pub bind_closed :
    (A : Type 0) (k : ℕ)
    → Ensures
        (λ w.
          (refs w ≡ 1)
          × (w.join ≡ true)
          × Ensures
              (λ r. r.0 ≡ some (TaskResult.err TaskError.cancelled))
              (Cell.try_read_output k w))
        (bind {A = A} true)
unfolding bind Cell.try_read_output
bind_closed A k = ground arith
