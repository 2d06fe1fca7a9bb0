-- ===== src/Uring/Driver/Requests.antt =====
-- The requests that norn-uring/src/driver/mod.rs makes on its own: `cancel`, `close_fd`, `cancel_all`.
-- Each of the calls that enter the kernel has its answer as an argument.
use faser.Prelude.{
  ℕ, Bool, true, false, not, ◌&&◌, ◌||◌, ltb, leb, if◌then◌else◌, ◌++◌, Outcome, done, ◌>>=◌,
}
use faser.Timer.Driver.{no_park}
use faser.Uring.Entry.{FdKind, close, async_cancel, Sqe, build}
use faser.Uring.Notify.Queue.{length}
use faser.Uring.Operation.{IoResult, ok, err}
use faser.Uring.Driver.{
  Driver, Answer, submit_entries, try_push_raw, cancellation_token, close_fd_token,
}

abbrev retry : Sqe → IoResult × Driver → Outcome (Bool × Driver)
retry e (ok n, d) = done (try_push_raw e d)
retry e (err n, d) = done (false, d)

-- `Shared::try_push_raw_submit`: if it returns without an error. The code pushes "again" also if the
-- first push went through.
unfoldable pub try_push_raw_submit : Sqe → Answer → Driver → Outcome (Bool × Driver)
try_push_raw_submit e a d =
    let (pushed, d') = try_push_raw e d in
    if pushed then done (try_push_raw e d') else (submit_entries no_park a d' >>= retry e)

abbrev pub close_entry : FdKind → Sqe
close_entry kind = record (build (close kind)) { skip_success = true; user_data = close_fd_token }

-- `Shared::close_fd`.
unfoldable pub close_fd : FdKind → Answer → Driver → Outcome (Bool × Driver)
close_fd kind a d = try_push_raw_submit (close_entry kind) a d

abbrev pub cancel_entry : ℕ → Sqe
cancel_entry criteria = record (build (async_cancel criteria)) {
  skip_success = true;
  user_data = cancellation_token;
}

-- `register_sync_cancel`: the kernel answers, and posts the completions of what it cancelled.
unfoldable pub register_sync_cancel : Answer → Driver → IoResult × Driver
register_sync_cancel a d = (a.result, record d { cq = d.cq ++ a.posted })

abbrev cancel_submitted : ℕ → Bool → Answer → IoResult × Driver → Outcome (IoResult × Driver)
cancel_submitted criteria sync b (err e, d) = done (err e, d)
cancel_submitted criteria sync b (ok n, d) =
    let (pushed, d') = try_push_raw (cancel_entry criteria) d in
    if not sync && pushed then done (ok 0, d') else done (register_sync_cancel b d)

-- `Shared::cancel`, of the operation whose pointer is the criterion.
unfoldable pub cancel : ℕ → Bool → Answer → Answer → Driver → Outcome (IoResult × Driver)
cancel criteria sync a b d = submit_entries no_park a d >>= cancel_submitted criteria sync b

-- `Shared::cancel_all`.
unfoldable pub cancel_all : Answer → Driver → IoResult × Driver
cancel_all a d = register_sync_cancel a d

-- `Shared::needs_park`.
unfoldable pub needs_park : Driver → Bool
needs_park d =
    ltb 0 d.backpressure.count || (leb d.capacity (length d.sq) || leb d.cq_size (length d.cq))
