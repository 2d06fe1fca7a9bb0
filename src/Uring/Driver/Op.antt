-- ===== src/Uring/Driver/Op.antt =====
-- `Op` of norn-uring/src/operation/mod.rs: an operation from its push into the submission queue over
-- its polls to its drop. `ptr` is the pointer to its allocation, under which the driver has it, and
-- `number` that of its push future.
use faser.Prelude.{
  ℕ, Bool, true, false, if◌then◌else◌, Option, none, some, Outcome, done, panic, ◌>>=◌,
}
use faser.Store.{update}
use faser.Uring.Driver.{Driver, Answer}
use faser.Uring.Driver.Push.{PushFuture, Pushed, pending, pushed, shutting_down}
use faser.Uring.Driver.Push
use faser.Uring.Driver.Requests.{cancel}
use faser.Uring.Entry.{Sqe}
use faser.Uring.Operation.{CqeResult, World, Next, item, ended, drop_ref, drop_handle}
use faser.Uring.Operation

pub data Stage : Type 0 where
  unsubmitted : PushFuture → Stage
  submitted : Stage

pub record Op : Type 0 where
  pub ptr : ℕ
  pub number : ℕ
  pub stage : Stage
  pub completed : Bool

-- `ConfiguredEntry::into_entry`: the entry carries the pointer.
abbrev pub into_entry : ℕ → Sqe → Sqe
into_entry ptr e = record e { user_data = ptr }

-- `Op::new`, with the entry that `configure` made.
unfoldable pub new : ℕ → ℕ → Sqe → Driver → Op × Driver
new ptr i e d = (
  record {
    ptr = ptr;
    number = i;
    stage = unsubmitted (Push.new (into_entry ptr e));
    completed = false;
  },
  record d { ops = update d.ops ptr Operation.new },
)

-- The poll of an `UnsubmittedOp`, with its `expect`.
abbrev pub after_push : Op → Pushed × PushFuture × Driver → Outcome (Bool × Op × Driver)
after_push o (pending, f, d) = done (false, record o { stage = unsubmitted f }, d)
after_push o (pushed, f, d) = done (true, record o { stage = submitted }, d)
after_push o (shutting_down, f, d) = panic

abbrev pub submit_in : Stage → ℕ → Op → Driver → Outcome (Bool × Op × Driver)
submit_in (unsubmitted f) k o d = Push.poll o.number k f d >>= after_push o
submit_in submitted k o d = done (true, o, d)

-- `Stage::poll_submit`.
unfoldable pub poll_submit : ℕ → Op → Driver → Outcome (Bool × Op × Driver)
poll_submit k o d = submit_in o.stage k o d

abbrev pub with_op : ℕ → World → Driver → Driver
with_op ptr w d = record d { ops = update d.ops ptr w }

abbrev pub answered : Option CqeResult × World → Op → Driver → Option CqeResult × Op × Driver
answered (none, w) o d = (none, o, with_op o.ptr w d)
answered (some c, w) o d = (some c, record o { completed = true }, with_op o.ptr w d)

unfoldable pub poll_submitted : ℕ → Op → Driver → Outcome (Option CqeResult × Op × Driver)
poll_submitted k o d = Operation.poll k (d.ops o.ptr) >>= λ r. done (answered r o d)

-- `Op::poll` of a `Singleshot`; `none` is `Poll::Pending`.
unfoldable pub poll : ℕ → Op → Driver → Outcome (Option CqeResult × Op × Driver)
poll k o d = do
  r ← poll_submit k o d
  elim r.0 [ true ↦ poll_submitted k r.1 r.2 | false ↦ done (none, r.1, r.2) ]

abbrev streamed : Next × World → Op → Driver → Next × Op × Driver
streamed (item c, w) o d = (item c, o, with_op o.ptr w d)
streamed (ended, w) o d = (ended, record o { completed = true }, with_op o.ptr w d)
streamed (Next.pending, w) o d = (Next.pending, o, with_op o.ptr w d)

unfoldable pub poll_next_submitted : ℕ → Op → Driver → Outcome (Next × Op × Driver)
poll_next_submitted k o d = Operation.poll_next k (d.ops o.ptr) >>= λ r. done (streamed r o d)

-- `Op::poll_next` of a `Multishot`.
unfoldable pub poll_next : ℕ → Op → Driver → Outcome (Next × Op × Driver)
poll_next k o d = do
  r ← poll_submit k o d
  elim r.0 [ true ↦ poll_next_submitted k r.1 r.2 | false ↦ done (Next.pending, r.1, r.2) ]

-- The drop of the entry, with its reference, if it was not pushed.
abbrev drop_entry : Option Sqe → World → Outcome World
drop_entry none w = done w
drop_entry (some e) w = drop_ref (record w { kernel = false })

abbrev drop_in : Stage → Answer → Answer → Op → Driver → Outcome Driver
drop_in (unsubmitted f) a b o d = do
  w ← drop_handle (d.ops o.ptr)
  d' ← Push.drop o.number f (with_op o.ptr w d)
  w' ← drop_entry f.entry (d'.ops o.ptr)
  done (with_op o.ptr w' d')
drop_in submitted a b o d = do
  d' ← if o.completed then done d else (cancel o.ptr false a b d >>= λ r. done r.1)
  w ← drop_handle (d'.ops o.ptr)
  done (with_op o.ptr w d')

-- The drop of the future: an operation that is not complete is cancelled, whatever the kernel says.
unfoldable pub drop : Answer → Answer → Op → Driver → Outcome Driver
drop a b o d = drop_in o.stage a b o d
