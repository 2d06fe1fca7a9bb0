-- ===== src/Uring/Driver/Tests.antt =====
-- Runs of the models of norn-uring/src/driver, and the theorems at concrete states.
use native.Mathlib.Decide.{ℕ_discrete}
use faser.Prelude.{
  if◌then◌else◌, ◌==◌, some, none, inr, inl, ◌≡◌, ◌≤◌, ◌<◌, ◌⊎◌, ◌++◌, refl, sym, ap, subst, Bool,
  true, false, ℕ, zero, List, [], ◌∷◌, Outcome, done, Ensures, arith, inl, suc,
}
use faser.Store.{update, update_other}
use faser.Uring.Entry.{fd, nop, build}
use faser.Uring.Notify.{Notify, linked, unregistered, default, notify, fire_loop}
use faser.Uring.Notify.Safety.{default-Inv}
use faser.Uring.Notify.Queue.{length}
use faser.Uring.Operation.{CqeResult, World, ok, err}
use faser.Uring.Operation
use faser.Uring.Operation.Safety
use faser.Uring.Unparker.{
  System, start, prepares, returns, drains, requests, writes, completes, perform, prepare, park,
  reset, request, write, wake_inner,
}
use faser.Uring.Unparker
use faser.Uring.Unparker.Waking.{here, later, Roused, signals, asleep-Roused}
use faser.Uring.Driver.{
  Driver, Cqe, Answer, running, draining, drain, drain_live, drain_loop, submit, submit_entries,
  prepare_park, set_status, dispatch, dispatch_all, try_push_raw, is_running, usize_max,
  is_shutdown,
}
use faser.Timer.Wheels.Sums.{sum_to}
use faser.Uring.Notify.Counting.{unclaimed}
use faser.Uring.Driver.Backpressure.{perform-Room}
use faser.Timer.Driver.{no_park}
use faser.Uring.Driver.Pushers.{Pushers, submits}
use faser.Uring.Driver.Pushers
use faser.Uring.Driver.Room.{Room}
use faser.Uring.Driver.Answering.{Returned, Waiting, posts, submit-Returned}
use faser.Uring.Driver.Sending.{Sent}
use faser.Uring.Driver.Op
use faser.Uring.Driver.Completing.{Owned, Fed, upto, Drained, drain-Sound}
use faser.Uring.Driver.Dispatch.{Sound}
use faser.Uring.Driver.Draining.{in_order, drain-in_order}
use faser.Uring.Driver.Park.{shutdown_loop, stop, begin_drain, await_drained, park_loop, Round}
use faser.Uring.Driver.Park
use faser.Uring.Driver.Requesting.{close_fd-Twice}
use faser.Uring.Driver.Requests.{close_fd, close_entry, cancel_all, register_sync_cancel}

-- The reactor sleeps, and a remote thread asks for a wakeup.
abbrev called : System
called = perform requests (perform (prepares true) start)

asleep-Roused_example : Roused called × (signals called ≤ 1)
unfolding perform prepare park request start Unparker.new
asleep-Roused_example =
    asleep-Roused {s = called} (later (later here (prepares true) (refl, refl)) requests tt) refl
      refl

-- A remote thread asks before the reactor parks.
abbrev early : System
early = perform requests start

-- The submission queue is full when the reactor prepares to park for the first time: it goes on, but
-- the next time it sleeps without a read, and the write of a remote thread reaches nobody.
abbrev deaf : System
deaf = perform writes (perform requests (perform (prepares true) (perform (prepares false) start)))

deaf-sleeps : (deaf.asleep ≡ true) × (deaf.unparker.flag.woken ≡ true) × (deaf.reads ≡ 0)
unfolding perform prepare park request write start Unparker.new
deaf-sleeps = (refl, refl, refl)

-- A ring of two entries in which one is queued; an operation at 2000 is complete, the kernel has
-- cancelled another request, and the drain has come to its end.
abbrev busy : Driver
busy = record {
  status = draining;
  backpressure = default;
  unparker = Unparker.new;
  capacity = 2;
  sq = build nop ∷ [];
  cq_size = 8;
  cq =
      record { user_data = 2000; cqe = record { result = ok 7; more = false } }
      ∷ record { user_data = 3; cqe = record { result = ok 0; more = false } }
      ∷ record { user_data = 1; cqe = record { result = ok 0; more = false } }
      ∷ [];
  ops = λ u. Operation.new;
  kernel = [];
  entered = [];
  eventfd = 5;
  buf = record { ptr = 4096; len = 8 };
}

drain-in_order_example : drain 2 10 busy ≡ in_order 3 busy
drain-in_order_example = drain-in_order 2 10 busy (omega arith) (omega arith)

op-Inv : Safety.Inv true Operation.new
unfolding Operation.new
op-Inv = record {
  counted = refl;
  memory = refl;
  finished = refl;
  data_there = λ e. refl;
  data_kept = λ e. cc;
  taken = λ e. cc;
  still_open = λ e f. refl;
  final = λ e. cc;
}

busy-Sound : Sound (λ u. true) busy
busy-Sound = record { ops = λ u h. op-Inv; backpressure = default-Inv }

-- Before every round, the kernel completes another cancellation.
abbrev ticks : ℕ → List Cqe
ticks i = record { user_data = 3; cqe = record { result = ok 0; more = false } } ∷ []

ticks-Owned : (i : ℕ) (held : ℕ → Bool) → Owned (λ u. true) (upto ticks i) held
ticks-Owned zero held = tt
ticks-Owned (suc i) held = (λ h. absurd (omega arith), ticks-Owned i (update held 3 false))

busy-Fed : Fed (λ u. true) ticks busy
unfolding Operation.new
busy-Fed i = (
  λ h. (refl, λ e. refl),
  (λ h. absurd (omega arith), (λ h. absurd (omega arith), ticks-Owned i _)),
)

drain-Sound_example : Ensures (Drained (λ u. true) 2 10) (drain_live ticks 2 10 busy)
drain-Sound_example = drain-Sound (λ u. true) ticks 2 10 busy (omega arith) busy-Sound busy-Fed

abbrev quick : Answer
quick = record { result = ok 1; posted = [] }

-- The ring runs, and is full or not.
abbrev room : Driver
room = record busy { status = running; capacity = 3 }

abbrev full : Driver
full = record busy { status = running; capacity = 1 }

close_fd-Twice_example :
    (suc (length room.sq) < room.capacity)
      × (close_fd (fd 4) quick room
          ≡ done (
            true,
            record room { sq = room.sq ++ (close_entry (fd 4) ∷ close_entry (fd 4) ∷ []) },
          ))
    ⊎ (suc (length room.sq) ≡ room.capacity)
      × (close_fd (fd 4) quick room
          ≡ done (false, record room { sq = room.sq ++ (close_entry (fd 4) ∷ []) }))
close_fd-Twice_example = close_fd-Twice (fd 4) quick room (omega arith)

-- A shutdown of an idle driver: the kernel takes the entries, cancels, and posts the drain token.
abbrev idle : Driver
idle = record busy { status = running; sq = []; cq = []; capacity = 2 }

abbrev quiet : Answer
quiet = record { result = ok 0; posted = [] }

abbrev drained : Answer
drained = record {
  result = ok 1;
  posted = record { user_data = 1; cqe = record { result = ok 0; more = false } } ∷ [];
}

abbrev stops : Outcome Driver → Bool
stops (done d) = is_shutdown d.status
stops m = false

shutdown_run :
    stops (
      shutdown_loop
        (record { submitted = quiet; cancelled = quiet; parked = drained ∷ [] }
          ∷ record { submitted = quiet; cancelled = quiet; parked = quiet ∷ [] }
          ∷ [])
        idle)
    ≡ true
unfolding shutdown_loop stop begin_drain await_drained Park.park park_loop submit submit_entries
    drain drain_live drain_loop dispatch_all dispatch set_status try_push_raw cancel_all
    register_sync_cancel prepare_park prepare park is_running notify fire_loop wake_inner request
    default
shutdown_run = refl

-- The new operation, and the completions that wait for another one and for the driver.
room-Waiting : Waiting (λ u. true) 4000 (Op.new 4000 0 (build nop) room).1
unfolding Op.new Operation.new default
room-Waiting = record {
  sound = record {
    ops = λ u h. elim (ℕ_discrete u 4000) [
      | yes p ↦
          subst (λ w. Safety.Inv true w) (sym (ap (update room.ops 4000 Operation.new) p)) op-Inv
      | no p ↦
          subst (λ w. Safety.Inv true w) (sym (update_other room.ops 4000 Operation.new u p)) op-Inv
    ];
    backpressure = default-Inv;
  };
  owned =
      (λ h. (refl, λ e. refl), ((λ h. absurd (omega arith)), ((λ h. absurd (omega arith)), tt)));
  others = (λ e. omega (arith, e), ((λ e. omega (arith, e)), ((λ e. omega (arith, e)), tt)));
  room = omega arith;
}

submit-Returned_example :
    Ensures
      (λ r.
        Sent 9 (Op.new 4000 0 (build nop) room).0 (build nop) (Op.new 4000 0 (build nop) room).1 r
        × Ensures (Returned 3 9 8 r.1 (ok 5)) (drain 32 usize_max (posts 4000 (ok 5) r.2)))
      (Op.poll 9 (Op.new 4000 0 (build nop) room).0 (Op.new 4000 0 (build nop) room).1)
unfolding default
submit-Returned_example =
    submit-Returned (λ u. true) 9 8 4000 0 (build nop) (ok 5) room refl (omega arith) default-Inv
      refl (omega arith) room-Waiting

-- A full ring on which the future 0 waits; the kernel then takes the entry.
abbrev waiting_one : Notify
waiting_one = record {
  waiters = 0 ∷ [];
  count = 1;
  entries = λ i.
      if i == 0
      then record { state = linked; waker = some 9 }
      else record { state = unregistered; waker = none };
  woken = [];
}

abbrev crowded : Pushers
crowded = record {
  driver = record full { backpressure = waiting_one };
  futures =
      λ i. if i == 0 then some (record { waiting = true; entry = some (build nop) }) else none;
}

crowded-Room : Room 1 crowded
unfolding unclaimed sum_to
crowded-Room = record {
  runs = refl;
  inv = record { counted = refl; marked = λ i. ground arith; armed = λ i h. ground arith };
  fits = λ i. elim (ℕ_discrete i 0) [
    | yes p ↦ rw p ((build nop, refl), inr (refl, inl refl))
    | no p ↦ ground arith
  ];
  below = λ i h. ground arith;
  spared = inr (omega arith);
}

perform-Room_example : Ensures (Room 1) (Pushers.perform (submits no_park quick) crowded)
perform-Room_example = perform-Room 1 (submits no_park quick) crowded crowded-Room (omega arith)
