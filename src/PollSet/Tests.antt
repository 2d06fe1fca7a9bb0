-- ===== src/PollSet/Tests.antt =====
-- Runs of the model of norn-util, and its theorems at concrete sets.
use faser.Prelude.{◌≡◌, refl, false, some, List, [], ◌∷◌, ◌>>=◌, Ensures, arith}
use faser.PollSet.{PollSet, new, spawn, acts, poll_tasks}
use faser.PollSet.Pending.{Watched, poll_tasks-Watched}
use faser.Task.Queue.{Act, spawns, schedules, unbinds}
use faser.Task.Queue
use faser.Task.Queue.Order.{Inv}

-- Task 1 spawns task 2 and ends, task 2 schedules itself once.
abbrev runs : List (List Act)
runs = (spawns 2 ∷ unbinds 1 ∷ []) ∷ (schedules 2 ∷ []) ∷ [] ∷ []

one-Inv : Inv ((spawn 1 new).queue)
unfolding spawn new Queue.new Queue.spawn Queue.bind Queue.schedule
one-Inv = record { counted = refl; fifo = refl }

poll_tasks-Watched_example :
    Ensures (Watched 7) (poll_tasks runs 7 (spawn 1 new) >>= acts (schedules 2 ∷ unbinds 2 ∷ []))
unfolding spawn new Queue.new Queue.spawn Queue.bind Queue.schedule
poll_tasks-Watched_example =
    poll_tasks-Watched runs 7 (spawn 1 new) (schedules 2 ∷ unbinds 2 ∷ []) one-Inv (omega arith) tt

-- A pending set with the waker 7.
abbrev pending : PollSet
pending = record {
  queue = record {
    runqueue = [];
    taskset = record { list = 1 ∷ []; closed = false; size = 1 };
    scheduled = 1 ∷ [];
    started = 1 ∷ [];
    stopped = [];
  };
  waker = some 7;
  woken = [];
}

-- A task that is spawned on a pending set wakes nobody.
spawn-quiet : (spawn 2 pending).woken ≡ []
unfolding spawn
spawn-quiet = refl
