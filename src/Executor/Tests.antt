-- ===== src/Executor/Tests.antt =====
-- Runs of the executor and of the task queue, and the theorem at a concrete state.
use faser.Prelude.{◌≡◌, refl, true, false, [], ◌∷◌, done, panic, Ensures}
use faser.Task.Queue.{
  TaskQueue, new, spawns, schedules, unbinds, Act, spawn, bind, schedule, act, acts, act_borrowed,
  next, shutdown, shutdown_all,
}
use faser.Task.Queue
use faser.Timer.Driver.{next_completion}
use faser.Executor.{Executor, Input, advance, running, parked, happen, run_next}
use faser.Executor.Sleeping.{Inv, advance-Inv}

-- Tasks 1 and 2 are queued, and the root future has been polled.
abbrev two : TaskQueue
two = record {
  runqueue = 1 ∷ 2 ∷ [];
  taskset = record { list = 1 ∷ 2 ∷ []; closed = false; size = 2 };
  scheduled = 1 ∷ 2 ∷ [];
  started = [];
  stopped = [];
}

abbrev ready : Executor
ready = record { taskqueue = two; poll_root = false; phase = running; interrupted = false }

ready-Inv : Inv ready
ready-Inv = record { queue = record { counted = refl; fifo = refl }; quiet = refl }

-- A task that spawns another while the lower layer asks for a park.
abbrev pressed : Input
pressed = record {
  effects = record { queue = spawns 3 ∷ unbinds 1 ∷ []; wakes_root = false };
  ready = false;
  needs_park = true;
  parks = true;
}

advance-Inv_example : Ensures Inv (advance pressed ready)
advance-Inv_example = advance-Inv pressed ready ready-Inv refl

-- The thread then waits for a completion though tasks 2 and 3 are queued.
advance-sleeps :
    advance pressed ready
    ≡ done (record {
      taskqueue = record {
        runqueue = 2 ∷ 3 ∷ [];
        taskset = record { list = 2 ∷ 3 ∷ []; closed = false; size = 2 };
        scheduled = 1 ∷ 2 ∷ 3 ∷ [];
        started = 1 ∷ [];
        stopped = [];
      };
      poll_root = false;
      phase = parked next_completion;
      interrupted = true;
    })
unfolding advance run_next next happen acts act spawn bind schedule Queue.remove Queue.unlink
advance-sleeps = refl

-- The drop of a future that spawns a task panics while the queue is shut down.
shutdown-panics : shutdown (λ t. spawns 9 ∷ []) two ≡ panic
unfolding shutdown shutdown_all acts act_borrowed
shutdown-panics = refl
