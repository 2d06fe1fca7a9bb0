-- ===== src/Task/Cell.antt =====
-- norn-task/src/task_cell.rs, header.rs and schedule.rs: the allocation of one task, what its vtable
-- does, and the handles that hold it. Wakers of other tasks are numbers; two that wake the same task
-- (`will_wake`) are equal. All calls come from the thread that made the task, which is what
-- `check_caller` asserts.
use faser.Prelude.{
  ℕ, ◌+◌, Bool, true, false, if◌then◌else◌, Option, none, some, List, ◌∷◌, Outcome, done, panic,
  fault, no_fuel, ◌==◌,
}
use faser.Task.State.{
  State, PreparePollResult, CompletePollResult, CompleteTaskResult, DropRefResult, NotifyResult,
  ShutdownResult, AbortResult,
}
use faser.Task.State
use faser.Task.FutureCell.{FutureState, TaskResult, Polled}
use faser.Task.FutureCell

-- `TaskCell` with its `Header`. The links of the task set are `World.registered`.
pub record TaskCell (A : Type 0) : Type 0 where
  pub state : State
  pub waker : Option ℕ
  pub future : FutureState A

-- The task, and who holds a reference to it. `runqueue` counts its `Runnable`s with the scheduler,
-- `wakers` those `Waker`s that somebody owns, and `polling` says that a call of `TaskCell::poll` is
-- under way, which holds its own `Runnable` and `Waker`. `woken` are the wakers of join handles
-- that the task has woken, the latest first.
pub record World (A : Type 0) : Type 0 where
  pub task : TaskCell A
  pub freed : Bool
  pub runqueue : ℕ
  pub registered : Bool
  pub join : Bool
  pub wakers : ℕ
  pub polling : Bool
  pub woken : List ℕ

abbrev pub M : Type 0 → Type 0 → Type 0
M A B = World A → Outcome (B × World A)

abbrev pub pure : {A B : Type 0} → B → M A B
pure b w = done (b, w)

infixl 5 ◌>>=◌ ◌>>◌
abbrev pub ◌>>=◌ : {A B C : Type 0} → M A B → (B → M A C) → M A C
◌>>=◌ m f w = elim (m w) [
  | done (b, w') ↦ f b w'
  | panic ↦ panic
  | fault ↦ fault
  | no_fuel ↦ no_fuel
]

abbrev pub ◌>>◌ : {A C : Type 0} → M A (Unit {0}) → M A C → M A C
m >> k = m >>= λ _. k

-- An access to the allocation.
abbrev pub access : {A C : Type 0} → World A → Outcome C → Outcome C
access w m = elim w.freed [ true ↦ fault | false ↦ m ]

put_state : {A B : Type 0} → World A → Outcome (B × State) → Outcome (B × World A)
put_state w (done (b, s)) = done (b, record w { task = record (w.task) { state = s } })
put_state w panic = panic
put_state w fault = fault
put_state w no_fuel = no_fuel

-- `StateCell::update`.
unfoldable pub update : {A B : Type 0} → (State → Outcome (B × State)) → M A B
unfolding put_state
update f w = access w (put_state w (f w.task.state))

put_future : {A B : Type 0} → World A → Outcome (B × FutureState A) → Outcome (B × World A)
put_future w (done (b, c)) = done (b, record w { task = record (w.task) { future = c } })
put_future w panic = panic
put_future w fault = fault
put_future w no_fuel = no_fuel

-- A call of the `FutureCell`.
unfoldable pub with_future : {A B : Type 0} → (FutureState A → Outcome (B × FutureState A)) → M A B
unfolding put_future
with_future f w = access w (put_future w (f w.task.future))

unfoldable pub cancel : {A : Type 0} → M A (Unit {0})
unfolding with_future FutureCell.cancel
cancel = with_future (λ c. done (tt, FutureCell.cancel c))

unfoldable pub destroy : {A : Type 0} → M A (Unit {0})
unfolding with_future FutureCell.destroy
destroy = with_future (λ c. done (tt, FutureCell.destroy c))

-- The drop of the `TaskCell`, with the waker and the stored output that are left in it.
unfoldable pub dealloc : {A : Type 0} → M A (Unit {0})
dealloc w = access w (
    done (
      tt,
      record w {
        freed = true;
        task = record (w.task) { waker = none; future = FutureState.empty };
      },
    ))

after_drop : {A : Type 0} → DropRefResult → M A (Unit {0})
unfolding dealloc
after_drop DropRefResult.drop_task = dealloc
after_drop DropRefResult.keep_task = pure tt

-- `TaskRef::drop`, and `waker_drop`, which does the same.
unfoldable pub drop_ref : {A : Type 0} → M A (Unit {0})
unfolding after_drop update State.drop_ref
drop_ref = do r ← update State.drop_ref; after_drop r

-- A clone of the reference, handed to `Schedule::schedule` as a `Runnable`.
unfoldable pub submit : {A : Type 0} → M A (Unit {0})
unfolding update State.clone_ref
submit = do update State.clone_ref; λ w. done (tt, record w { runqueue = w.runqueue + 1 })

after_notify : {A : Type 0} → NotifyResult → M A (Unit {0})
unfolding submit
after_notify NotifyResult.do_nothing = pure tt
after_notify NotifyResult.submit_task = submit

unfoldable pub waker_clone : {A : Type 0} → M A (Unit {0})
unfolding update State.clone_ref
waker_clone = update State.clone_ref

unfoldable pub waker_wake_ref : {A : Type 0} → M A (Unit {0})
unfolding after_notify update State.notify
waker_wake_ref = do r ← update State.notify; after_notify r

unfoldable pub waker_wake_val : {A : Type 0} → M A (Unit {0})
unfolding after_notify update State.notify drop_ref
waker_wake_val = do r ← update State.notify; after_notify r; drop_ref

wake_join : {A : Type 0} → Option ℕ → M A (Unit {0})
wake_join none w = done (tt, w)
wake_join (some k) w =
    done (tt, record w { task = record (w.task) { waker = none }; woken = k ∷ w.woken })

-- `Header::notify_join_handle`.
unfoldable pub notify_join_handle : {A : Type 0} → M A (Unit {0})
unfolding wake_join
notify_join_handle w = access w (wake_join w.task.waker w)

replace_waker : ℕ → Option ℕ → ℕ
replace_waker k none = k
replace_waker k (some existing) = if existing == k then existing else k

-- `Header::set_waker`.
unfoldable pub set_waker : {A : Type 0} → ℕ → M A (Unit {0})
unfolding replace_waker
set_waker k w =
    access w (
      done
        (tt, record w { task = record (w.task) { waker = some (replace_waker k w.task.waker) } }))

-- `Schedule::unbind`: the task set drops its `RegisteredTask`, if the task is still in its list.
unfoldable pub unbind : {A : Type 0} → M A (Unit {0})
unfolding drop_ref
unbind w = if w.registered then drop_ref (record w { registered = false }) else done (tt, w)

after_complete : {A : Type 0} → CompleteTaskResult → M A (Unit {0})
unfolding notify_join_handle destroy
after_complete CompleteTaskResult.notify_join_handle = notify_join_handle
after_complete CompleteTaskResult.drop_output = destroy

unfoldable pub complete_task : {A : Type 0} → M A (Unit {0})
unfolding after_complete update State.complete_task unbind
complete_task = do r ← update State.complete_task; after_complete r; unbind

-- The vtable's `shutdown`.
after_shutdown : {A : Type 0} → ShutdownResult → M A (Unit {0})
unfolding cancel
after_shutdown ShutdownResult.already_completed = pure tt
after_shutdown ShutdownResult.not_completed = cancel

unfoldable pub shutdown : {A : Type 0} → M A (Unit {0})
unfolding after_shutdown update State.shutdown
shutdown = do r ← update State.shutdown; after_shutdown r

after_abort : {A : Type 0} → AbortResult → M A (Unit {0})
unfolding submit
after_abort AbortResult.do_nothing = pure tt
after_abort AbortResult.submit_task = submit

unfoldable pub abort : {A : Type 0} → M A (Unit {0})
unfolding after_abort update State.abort
abort = do r ← update State.abort; after_abort r

-- `TaskCell::poll` up to the call of the future, run by `Runnable::run`, which drops its reference at
-- the end. The new waker of the third case is part of `polling`.
begin_poll : {A : Type 0} → PreparePollResult → M A (Unit {0})
unfolding cancel complete_task drop_ref update State.clone_ref
begin_poll PreparePollResult.complete = drop_ref
begin_poll PreparePollResult.cancelled = do cancel; complete_task; drop_ref
begin_poll PreparePollResult.ok = do
  update State.clone_ref
  λ w. done (tt, record w { polling = true })

unfoldable pub poll : {A : Type 0} → M A (Unit {0})
unfolding begin_poll update State.prepare_poll
poll = do r ← update State.prepare_poll; begin_poll r

-- The rest of `TaskCell::poll`, once the future's `poll` has returned: the waker is dropped at the
-- end of the branch, the `Runnable` at the end of the run.
end_pending : {A : Type 0} → CompletePollResult → M A (Unit {0})
unfolding cancel complete_task drop_ref submit
end_pending CompletePollResult.notified_during_poll = do drop_ref; submit; drop_ref
end_pending CompletePollResult.cancelled = do cancel; drop_ref; complete_task; drop_ref
end_pending CompletePollResult.ok = do drop_ref; drop_ref

end_poll : {A : Type 0} → Bool → M A (Unit {0})
unfolding end_pending complete_task drop_ref update State.complete_poll
end_poll true = do drop_ref; complete_task; drop_ref
end_poll false = do r ← update State.complete_poll; end_pending r

unfoldable pub polled : {A : Type 0} → Polled A → M A (Unit {0})
unfolding end_poll with_future FutureCell.poll
polled p = do is_ready ← with_future (FutureCell.poll p); end_poll is_ready

read_complete : {A : Type 0} → Bool → ℕ → M A (Option (TaskResult A))
unfolding with_future FutureCell.take_output set_waker
read_complete true k = do r ← with_future FutureCell.take_output; pure (some r)
read_complete false k = do set_waker k; pure none

-- `try_read_output`; `none` is `Poll::Pending`.
unfoldable pub try_read_output : {A : Type 0} → ℕ → M A (Option (TaskResult A))
unfolding read_complete
try_read_output k w = access w (read_complete w.task.state.complete k w)

-- `JoinHandleRef::drop`, then the drop of its `TaskRef`.
unfoldable pub drop_join_handle : {A : Type 0} → M A (Unit {0})
unfolding update State.drop_join_handle drop_ref
drop_join_handle = do update State.drop_join_handle; drop_ref
