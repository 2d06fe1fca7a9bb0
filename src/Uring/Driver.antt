-- ===== src/Uring/Driver.antt =====
-- norn-uring/src/driver/mod.rs: the driver of an io_uring. The kernel is an argument: what it answers
-- to a call and which completions it posts. `kernel` are the entries it took, the latest first, and
-- `entered` the modes in which it was entered, the latest first; `ops` are the operations, by the
-- pointer that serves as `user_data`.
pub mod Requests
pub mod Park
pub mod Push
pub mod Pushing
pub mod Draining
pub mod Dispatch
pub mod Completing
pub mod Op
pub mod Sending
pub mod Answering
pub mod Pushers
pub mod Room
pub mod Backpressure
mod Tests
pub mod Requesting
use faser.Prelude.{
  ℕ, zero, suc, ◌+◌, ◌-◌, ◌*◌, ◌^◌, Bool, true, false, not, ◌&&◌, ◌||◌, ltb, leb, ◌==◌,
  if◌then◌else◌, List, [], ◌∷◌, ◌++◌, Outcome, done, panic, no_fuel, ◌>>=◌, ◌>>◌, assert,
}
use faser.Store.{update}
use faser.Timer.Driver.{ParkMode, no_park, next_completion, timeout}
use faser.Uring.Entry.{Opcode, nop, close, async_cancel, read, FdKind, fd, Slice, Sqe, build}
use faser.Uring.Notify.{Notify, notify}
use faser.Uring.Notify
use faser.Uring.Notify.Queue.{length, take, skip}
use faser.Uring.Operation.{CqeResult}
use faser.Uring.Operation
use faser.Uring.Unparker.{Unparker, prepare, reset, wake_inner}
use faser.Uring.Unparker

abbrev pub usize_max : ℕ
usize_max = 2 ^ 64 - 1

abbrev pub drain_token : ℕ
drain_token = 1

abbrev pub unparker_wake_token : ℕ
unparker_wake_token = 2

abbrev pub cancellation_token : ℕ
cancellation_token = 3

abbrev pub close_fd_token : ℕ
close_fd_token = 4

-- A completion: the `user_data` of its entry, and the rest.
pub record Cqe : Type 0 where
  pub user_data : ℕ
  pub cqe : CqeResult

pub data Status : Type 0 where
  running draining shutdown : Status

-- `Driver` with its `Shared`; `eventfd` and `buf` are the eventfd and the buffer of the unparker.
pub record Driver : Type 0 where
  pub status : Status
  pub backpressure : Notify
  pub unparker : Unparker
  pub capacity : ℕ
  pub sq : List Sqe
  pub cq_size : ℕ
  pub cq : List Cqe
  pub ops : ℕ → Operation.World
  pub kernel : List Sqe
  pub entered : List ParkMode
  pub eventfd : ℕ
  pub buf : Slice

unfoldable pub new : ℕ → ℕ → ℕ → Slice → (ℕ → Operation.World) → Driver
new capacity cq_size eventfd buf ops = record {
  status = running;
  backpressure = Notify.default;
  unparker = Unparker.new;
  capacity = capacity;
  sq = [];
  cq_size = cq_size;
  cq = [];
  ops = ops;
  kernel = [];
  entered = [];
  eventfd = eventfd;
  buf = buf;
}

unfoldable pub is_running : Status → Bool
is_running running = true
is_running s = false

abbrev pub is_draining : Status → Bool
is_draining draining = true
is_draining s = false

abbrev pub is_shutdown : Status → Bool
is_shutdown shutdown = true
is_shutdown s = false

abbrev pub same : Status → Status → Bool
same running s = is_running s
same draining s = is_draining s
same shutdown s = is_shutdown s

-- `Shared::set_status`: all waiters are notified of a change.
unfoldable pub set_status : Status → Driver → Outcome Driver
set_status s d = do
  d' ←
      (if same s d.status
        then done d
        else (notify usize_max d.backpressure >>= λ r. done (record d { backpressure = r.1 })))
  done (record d' { status = s })

-- `Shared::try_push_raw`, and `try_push`, which gives the entry back to its caller: if the entry
-- is pushed.
unfoldable pub try_push_raw : Sqe → Driver → Bool × Driver
try_push_raw e d =
    if ltb (length d.sq) d.capacity then (true, record d { sq = d.sq ++ (e ∷ []) }) else (false, d)

-- What the kernel answers when it is entered: how many entries it took or an error number, and the
-- completions that it posts in the meantime.
pub record Answer : Type 0 where
  pub result : Operation.IoResult
  pub posted : List Cqe

abbrev pub taken : Operation.IoResult → Driver → Outcome (Operation.IoResult × Driver)
taken (Operation.ok n) d = do
  r ← notify n d.backpressure
  done (
    Operation.ok n,
    record d { sq = skip n d.sq; kernel = take n d.sq ++ d.kernel; backpressure = r.1 },
  )
taken (Operation.err e) d = done (Operation.err e, d)

-- `Shared::submit`.
unfoldable pub submit_entries : ParkMode → Answer → Driver → Outcome (Operation.IoResult × Driver)
submit_entries mode a d =
    taken a.result (record d { entered = mode ∷ d.entered; cq = d.cq ++ a.posted })

-- The read of the eventfd of `prepare_park`.
abbrev pub wake_read : Driver → Sqe
wake_read d = record (build (read (fd d.eventfd) d.buf 0)) { user_data = unparker_wake_token }

-- The rest of it is `prepare`, with the room that the submission queue has.
unfoldable pub prepare_park : Driver → Bool × Driver
prepare_park d =
    let ((ready, pushes), u) = prepare (ltb (length d.sq) d.capacity) d.unparker in
    let d' = record d { unparker = u } in
    if is_running d.status
    then (ready, if pushes then (try_push_raw (wake_read d') d').1 else d')
    else (true, d)

abbrev pub blocks : ParkMode → Bool
blocks no_park = false
blocks next_completion = true
blocks (timeout t) = true

-- `Driver::submit`.
unfoldable pub submit : ParkMode → Answer → Driver → Outcome (Operation.IoResult × Driver)
submit mode a d =
    let (ready, d') = prepare_park d in
    if blocks mode
    then submit_entries (if ready then mode else no_park) a d'
    else submit_entries mode a d

-- `complete_operation`, on the operation that the completion is of.
unfoldable pub complete_operation : Cqe → Driver → Outcome Driver
complete_operation c d = do
  assert (ltb 1024 c.user_data)
  w ← Operation.complete c.cqe (d.ops c.user_data)
  done (record d { ops = update d.ops c.user_data w })

-- What the loop of `drain` does with one completion.
unfoldable pub dispatch : Cqe → Driver → Outcome Driver
dispatch c d =
    if c.user_data == drain_token
    then set_status shutdown d
    else if c.user_data == unparker_wake_token
    then done (record d { unparker = reset d.unparker })
    else if c.user_data == cancellation_token || c.user_data == close_fd_token
    then done d
    else if leb c.user_data 1024
    then done d
    else complete_operation c d

unfoldable pub dispatch_all : List Cqe → Driver → Outcome Driver
dispatch_all [] d = done d
dispatch_all (c ∷ cs) d = dispatch c d >>= dispatch_all cs

-- What the kernel posts is put behind what is there.
abbrev pub arrive : List Cqe → Driver → Driver
arrive [] d = d
arrive (c ∷ cs) d = record d { cq = d.cq ++ (c ∷ cs) }

-- A round of `drain`, with `f` for the rest. `drain_fill` takes up to `n` completions and tells if there
-- are more.
abbrev pub drain_round :
    (ℕ → Driver → Outcome (ℕ × Driver)) → ℕ → ℕ → ℕ → Driver → Outcome (ℕ × Driver)
drain_round f n max total d = do
  d' ← dispatch_all (take n d.cq) (record d { cq = skip n d.cq })
  elim (ltb n (length d.cq) && ltb (total + length (take n d.cq)) max) [
    | true ↦ f (total + length (take n d.cq)) d'
    | false ↦ done (total + length (take n d.cq), d')
  ]

-- The loop of `drain`, on the rounds that are left and what has been drained; `posts` is what the kernel
-- posts before each round reads the queue.
unfoldable pub drain_loop : (ℕ → List Cqe) → ℕ → ℕ → ℕ → ℕ → Driver → Outcome (ℕ × Driver)
drain_loop posts zero n max total d = no_fuel
drain_loop posts (suc k) n max total d =
    drain_round (drain_loop (λ i. posts (suc i)) k n max) n max total (arrive (posts 0) d)

-- `drain::<N>(max)`, while the kernel posts.
unfoldable pub drain_live : (ℕ → List Cqe) → ℕ → ℕ → Driver → Outcome (ℕ × Driver)
drain_live posts n max d = drain_loop posts (suc max) n max 0 d

abbrev pub quiet : ℕ → List Cqe
quiet i = []

-- The same, if what the kernel posts in the meantime stays for later.
unfoldable pub drain : ℕ → ℕ → Driver → Outcome (ℕ × Driver)
drain n max d = drain_live quiet n max d
