-- ===== src/Task/Tests.antt =====
-- Runs of the task model, and the theorems at concrete tasks.
use faser.Prelude.{
  ℕ, ◌≡◌, refl, true, false, none, some, [], ◌∷◌, done, Ensures, arith, if◌then◌else◌,
}
use faser.Task.FutureCell.{FutureState, TaskResult, TaskError, Polled}
use faser.Task.Cell.{World, TaskCell}
use faser.Task.Cell
use faser.Task.World.{run, returns, drop_join, perform}
use faser.Task.World.Safety.{Inv, perform-Inv}
use faser.Task.Spawn.{bind, spawned, Reach-Inv}
use faser.Task.Wakeups.{Scheduled, perform-Scheduled}
use faser.Task.Phases.{polling, next, view, perform-next}
use faser.Task.Results.{Completed, returns-Completed, cancelled-Completed, output_kept}

-- Bound to an open set.
abbrev fresh : World ℕ
fresh = record {
  task = record {
    state = record {
      flags = record {
        notified = true;
        running = false;
        complete = false;
        join_handle = true;
        cancelled = false;
      };
      refcount = 3;
    };
    waker = none;
    future = FutureState.future;
  };
  freed = false;
  runqueue = 1;
  registered = true;
  join = true;
  wakers = 0;
  polling = false;
  woken = [];
}

bind_open : bind false ≡ done fresh
unfolding bind
bind_open = refl

abbrev active : World ℕ
active = record fresh {
  task = record (fresh.task) {
    state = record {
      flags = record {
        notified = false;
        running = true;
        complete = false;
        join_handle = true;
        cancelled = false;
      };
      refcount = 4;
    };
    waker = some 7;
  };
  runqueue = 0;
  polling = true;
}

run_fresh :
    perform run fresh ≡ done (record active { task = record (active.task) { waker = none } })
unfolding perform Cell.poll
run_fresh = refl

abbrev finished : World ℕ
finished = record active {
  task = record {
    state = record {
      flags = record {
        notified = false;
        running = false;
        complete = true;
        join_handle = true;
        cancelled = false;
      };
      refcount = 1;
    };
    waker = none;
    future = FutureState.future_result (TaskResult.ok 5);
  };
  registered = false;
  polling = false;
  woken = 7 ∷ [];
}

returns_active : perform (returns (Polled.ready 5)) active ≡ done finished
unfolding perform Cell.polled
returns_active = refl

-- Aborted while it waits for its turn.
abbrev aborted : World ℕ
aborted = record fresh {
  task = record (fresh.task) {
    state = record (fresh.task.state) {
      flags = record (fresh.task.state.flags) { cancelled = true };
    };
  };
}

fresh-Inv : Inv fresh
fresh-Inv = ground arith

active-Inv : Inv active
active-Inv = ground arith

finished-Inv : Inv finished
finished-Inv = ground arith

aborted-Inv : Inv aborted
aborted-Inv = ground arith

fresh-Scheduled : Scheduled fresh
fresh-Scheduled = ground arith

perform-Inv_example : Ensures Inv (perform run fresh)
perform-Inv_example = perform-Inv run fresh fresh-Inv (ground arith)

Reach-Inv_example : Inv fresh
Reach-Inv_example = Reach-Inv (spawned bind_open)

perform-Scheduled_example : Ensures Scheduled (perform run fresh)
perform-Scheduled_example = perform-Scheduled run fresh fresh-Inv fresh-Scheduled (ground arith) tt

perform-next_example :
    Ensures (λ w'. view w' ≡ record { phase = polling; cancelled = false }) (perform run fresh)
unfolding next
perform-next_example = perform-next run fresh fresh-Inv fresh-Scheduled (ground arith) tt

returns-Completed_example :
    Ensures (Completed (TaskResult.ok 5) active) (perform (returns (Polled.ready 5)) active)
returns-Completed_example =
    returns-Completed (Polled.ready 5) (TaskResult.ok 5) active refl active-Inv (ground arith)

cancelled-Completed_example :
    Ensures (Completed (TaskResult.err TaskError.cancelled) aborted) (perform run aborted)
cancelled-Completed_example =
    cancelled-Completed run aborted tt aborted-Inv refl refl (ground arith)

output_kept_example :
    Ensures
      (λ w'.
        (w'.task.state.complete ≡ true)
        × (w'.task.future ≡ (if w'.freed then FutureState.empty else finished.task.future)))
      (perform drop_join finished)
output_kept_example = output_kept drop_join finished (λ x. x) finished-Inv refl (ground arith)
