-- ===== src/Uring/Driver/Park.antt =====
-- `Park` for the `Driver` of norn-uring/src/driver/mod.rs: `park` and `shutdown`. A list of answers is
-- what the kernel says to the calls of a loop, one after the other; a loop that needs another answer
-- than there are is out of fuel.
use faser.Prelude.{
  ℕ, Bool, true, false, ltb, ◌==◌, if◌then◌else◌, List, [], ◌∷◌, Outcome, done, panic, no_fuel,
  ◌>>=◌,
}
use faser.Timer.Driver.{ParkMode, no_park, next_completion}
use faser.Uring.Entry.{nop, Sqe, build}
use faser.Uring.Operation.{IoResult, ok, err}
use faser.Uring.Unparker.{wake_inner}
use faser.Uring.Driver.{
  Driver, Answer, drain_token, usize_max, draining, is_running, is_draining, is_shutdown, drain,
  submit, submit_entries, set_status, try_push_raw,
}
use faser.Uring.Driver.Requests.{cancel_all}

abbrev pub ebusy : ℕ
ebusy = 16

abbrev pub eintr : ℕ
eintr = 4

-- The errors after which `park` goes on.
abbrev pub retried : IoResult → Bool
retried (ok n) = false
retried (err e) = if e == ebusy then true else e == eintr

abbrev after_busy : IoResult → ParkMode → Driver → Outcome (ParkMode × Driver)
after_busy (ok n) mode d = done (mode, d)
after_busy (err e) mode d =
    if e == ebusy then (drain 32 usize_max d >>= λ r. done (no_park, r.1)) else done (mode, d)

-- The loop of `park`; what it returns is its result, with the driver.
unfoldable pub park_loop : List Answer → ParkMode → Driver → Outcome (IoResult × Driver)
park_loop [] mode d = no_fuel
park_loop (a ∷ rest) mode d = do
  r ← submit mode a d
  elim (retried r.0) [
    | true ↦ after_busy r.0 mode r.1 >>= λ s. park_loop rest s.0 s.1
    | false ↦ done r
  ]

unfoldable pub park : List Answer → ParkMode → Driver → Outcome (IoResult × Driver)
park answers mode d = do
  r ← drain 32 usize_max d
  park_loop answers (if ltb 0 r.0 then no_park else mode) r.1

-- `unwrap`.
abbrev pub unwrap : IoResult × Driver → Outcome Driver
unwrap (ok n, d) = done d
unwrap (err e, d) = panic

abbrev pub drain_nop : Sqe
drain_nop = record (build nop) { io_drain = true; user_data = drain_token }

-- The answers to the calls that one round of the loop of `shutdown` makes.
pub record Round : Type 0 where
  pub submitted : Answer
  pub cancelled : Answer
  pub parked : List Answer

-- `try_push_raw`, and `set_status` if it went through.
unfoldable pub begin_drain : Driver → Outcome Driver
begin_drain d =
    let (pushed, d') = try_push_raw drain_nop d in
    if pushed then set_status draining d' else done d'

-- A round in which the driver is running: what is queued is submitted, what is outstanding
-- cancelled, and the entry that completes last is queued.
unfoldable pub stop : Round → Driver → Outcome Driver
stop r d = do
  d' ← submit_entries no_park r.submitted (record d { unparker = wake_inner d.unparker }) >>= unwrap
  d'' ← unwrap (cancel_all r.cancelled d')
  begin_drain d''

unfoldable pub await_drained : Round → Driver → Outcome Driver
await_drained r d =
    if is_draining d.status then (park r.parked next_completion d >>= unwrap) else done d

-- The loop of `shutdown`.
unfoldable pub shutdown_loop : List Round → Driver → Outcome Driver
shutdown_loop [] d = if is_shutdown d.status then done d else no_fuel
shutdown_loop (r ∷ rs) d = elim (is_shutdown d.status) [
  | true ↦ done d
  | false ↦ do
    d' ← if is_running d.status then stop r d else done d
    d'' ← await_drained r d'
    shutdown_loop rs d''
]
