-- ===== src/Task/State.antt =====
-- norn-task/src/state.rs: the flags and the reference count of a task, and their transitions.
use faser.Prelude.{
  ℕ, ◌+◌, ◌-◌, ◌^◌, Bool, true, false, not, ◌||◌, ltb, ◌==◌, if◌then◌else◌, Outcome, done, ◌>>◌,
  assert,
}

-- The `bitflags` set, a field for each flag.
pub record Flags : Type 0 where
  pub notified : Bool
  pub running : Bool
  pub complete : Bool
  pub join_handle : Bool
  pub cancelled : Bool

pub record State : Type 0 where
  pub flags : Flags
  pub open flags use *
  pub refcount : ℕ  -- u32

pub data PreparePollResult : Type 0 where
  ok complete cancelled : PreparePollResult

pub data CompletePollResult : Type 0 where
  notified_during_poll cancelled ok : CompletePollResult

pub data CompleteTaskResult : Type 0 where
  notify_join_handle drop_output : CompleteTaskResult

pub data DropRefResult : Type 0 where
  drop_task keep_task : DropRefResult

pub data NotifyResult : Type 0 where
  do_nothing submit_task : NotifyResult

pub data ShutdownResult : Type 0 where
  already_completed not_completed : ShutdownResult

pub data AbortResult : Type 0 where
  do_nothing submit_task : AbortResult

abbrev pub u32_limit : ℕ
u32_limit = 2 ^ 32

unfoldable pub new : State
new = record {
  flags = record {
    notified = true;
    running = false;
    complete = false;
    join_handle = true;
    cancelled = false;
  };
  refcount = 2;
}

unfoldable pub prepare_poll : State → Outcome (PreparePollResult × State)
prepare_poll s = do
  assert (ltb 0 s.refcount)
  assert s.notified
  assert (not s.running)
  let s' = record s { flags = record (s.flags) { running = true; notified = false } }
  done (
      if s.complete
      then (PreparePollResult.complete, s)
      else if s.cancelled
      then (PreparePollResult.cancelled, s')
      else (PreparePollResult.ok, s'))

unfoldable pub complete_poll : State → Outcome (CompletePollResult × State)
complete_poll s = do
  assert s.running
  assert (ltb 0 s.refcount)
  let s' = record s { flags = record (s.flags) { running = false } }
  done (
      if s.cancelled
      then (CompletePollResult.cancelled, s)
      else if s.notified
      then (CompletePollResult.notified_during_poll, s')
      else (CompletePollResult.ok, s'))

unfoldable pub complete_task : State → Outcome (CompleteTaskResult × State)
complete_task s = do
  assert (ltb 0 s.refcount)
  assert s.running
  assert (not s.complete)
  let s' = record s { flags = record (s.flags) { complete = true; running = false } }
  done (
      if s.join_handle
      then (CompleteTaskResult.notify_join_handle, s')
      else (CompleteTaskResult.drop_output, s'))

drop_ref_last : State → Outcome (DropRefResult × State)
drop_ref_last s = do assert (not s.join_handle); done (DropRefResult.drop_task, s)

unfoldable pub drop_ref : State → Outcome (DropRefResult × State)
unfolding drop_ref_last
drop_ref s = do
  assert (ltb 0 s.refcount)
  let s' = record s { refcount = s.refcount - 1 }
  if s'.refcount == 0 then drop_ref_last s' else done (DropRefResult.keep_task, s')

-- `checked_add` fails at the largest `u32`.
unfoldable pub clone_ref : State → Outcome (Unit {0} × State)
clone_ref s = do
  assert (ltb 0 s.refcount)
  assert (ltb (s.refcount + 1) u32_limit)
  done (tt, record s { refcount = s.refcount + 1 })

unfoldable pub notify : State → Outcome (NotifyResult × State)
notify s = do
  assert (ltb 0 s.refcount)
  let s' = record s { flags = record (s.flags) { notified = true } }
  done (
      if s.complete || s.notified
      then (NotifyResult.do_nothing, s)
      else if s.running
      then (NotifyResult.do_nothing, s')
      else (NotifyResult.submit_task, s'))

unfoldable pub shutdown : State → Outcome (ShutdownResult × State)
shutdown s = do
  assert (ltb 0 s.refcount)
  assert (not s.running)
  done (
      if s.complete
      then (
        ShutdownResult.already_completed,
        record s { flags = record (s.flags) { cancelled = true } },
      )
      else (
        ShutdownResult.not_completed,
        record s { flags = record (s.flags) { cancelled = true; complete = true } },
      ))

unfoldable pub abort : State → Outcome (AbortResult × State)
abort s = do
  assert (ltb 0 s.refcount)
  assert s.join_handle
  let s' = record s { flags = record (s.flags) { cancelled = true } }
  let s'' = record s { flags = record (s.flags) { cancelled = true; notified = true } }
  done (
      if s.cancelled || s.complete
      then (AbortResult.do_nothing, s)
      else if s.running
      then (AbortResult.do_nothing, s'')
      else if s.notified
      then (AbortResult.do_nothing, s')
      else (AbortResult.submit_task, s''))

unfoldable pub drop_join_handle : State → Outcome (Unit {0} × State)
drop_join_handle s = do
  assert (ltb 0 s.refcount)
  assert s.join_handle
  done (tt, record s { flags = record (s.flags) { join_handle = false } })
