-- ===== src/Uring/Fd.antt =====
-- norn-uring/src/fd.rs: one descriptor with its handles. `strong` is the reference count, `requests`
-- how often its close was requested, by `close` or by the drop of the last handle. A future of
-- `close` has a number, that of the `Notified` it waits on; what the submitted close answers when it
-- is polled is an input, `none` for pending.
pub mod Closing
use faser.Prelude.{
  ℕ, zero, suc, ◌+◌, ◌-◌, ◌^◌, Bool, true, false, ◌==◌, ltb, if◌then◌else◌, Option, none, some,
  Outcome, done, panic, no_fuel, ◌>>=◌, ◌>>◌, assert,
}
use faser.Uring.Entry.{FdKind}
use faser.Uring.Notify.{Notify, notify}
use faser.Uring.Notify
use faser.Uring.Operation.{IoResult, ok, err}

-- `NornFd`, with its `Inner`.
pub record NornFd : Type 0 where
  pub kind : FdKind
  pub notify : Notify
  pub closed : Bool
  pub strong : ℕ
  pub freed : Bool
  pub requests : ℕ

unfoldable pub new : FdKind → NornFd
new kind = record {
  kind = kind;
  notify = Notify.default;
  closed = false;
  strong = 1;
  freed = false;
  requests = 0;
}

-- The `clone` of a handle.
unfoldable pub clone : NornFd → NornFd
clone w = record w { strong = w.strong + 1 }

-- The drop of the `Inner` with the last handle.
unfoldable pub drop_inner : NornFd → NornFd
drop_inner w = record w { freed = true; requests = if w.closed then w.requests else w.requests + 1 }

-- A reference is given up.
unfoldable pub give_up : NornFd → NornFd
give_up w =
    if w.strong == 1
    then drop_inner (record w { strong = 0 })
    else record w { strong = w.strong - 1 }

-- The drop of a handle: all that wait are notified, then the reference is given up.
unfoldable pub drop : NornFd → Outcome NornFd
drop w =
    assert (ltb 0 w.strong)
    >> (notify (2 ^ 64 - 1) w.notify >>= λ r. done (give_up (record w { notify = r.1 })))

-- Where a future of `close` stands.
pub data Close : Type 0 where
  starting waiting submitted : Close

pub data Closed : Type 0 where
  pending : Closed
  ready : IoResult → Closed

abbrev pub step_starting : ℕ → NornFd → Option Closed × Close × NornFd
step_starting i w =
    if w.closed
    then (some (ready (ok 0)), starting, w)
    else if w.strong == 1
    then (none, submitted, record w { requests = w.requests + 1 })
    else (none, waiting, record w { notify = Notify.wait i w.notify })

abbrev pub step_waiting : ℕ → ℕ → NornFd → Outcome (Option Closed × Close × NornFd)
step_waiting i k w = Notify.poll i k w.notify >>= λ r. elim r.0 [
  | true ↦ Notify.drop i r.1 >>= λ n. done (none, starting, record w { notify = n })
  | false ↦ done (some pending, waiting, record w { notify = r.1 })
]

abbrev pub step_submitted : Option IoResult → NornFd → Option Closed × Close × NornFd
step_submitted none w = (some pending, submitted, w)
step_submitted (some (ok n)) w = (none, starting, record w { closed = true })
step_submitted (some (err e)) w = (some (ready (err e)), submitted, w)

-- What a future of `close` does until it waits for the next thing.
unfoldable pub step :
    ℕ → ℕ → Option IoResult → Close → NornFd → Outcome (Option Closed × Close × NornFd)
step i k x starting w = done (step_starting i w)
step i k x waiting w = step_waiting i k w
step i k x submitted w = done (step_submitted x w)

abbrev pub more :
    (Close → NornFd → Outcome (Closed × Close × NornFd))
    → Option Closed × Close × NornFd
    → Outcome (Closed × Close × NornFd)
more f (none, c, w) = f c w
more f (some a, c, w) = done (a, c, w)

-- The loop of `close`, on the steps that are left.
unfoldable pub close_loop :
    ℕ → ℕ → ℕ → Option IoResult → Close → NornFd → Outcome (Closed × Close × NornFd)
close_loop zero i k x c w = no_fuel
close_loop (suc n) i k x c w = step i k x c w >>= more (close_loop n i k x)

-- A poll of the future. Four steps are enough.
unfoldable pub close : ℕ → ℕ → Option IoResult → Close → NornFd → Outcome (Closed × Close × NornFd)
close i k x c w = close_loop 4 i k x c w
