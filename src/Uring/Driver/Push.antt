-- ===== src/Uring/Driver/Push.antt =====
-- norn-uring/src/driver/futures.rs: the future that pushes an entry when there is room for it. Its
-- number is that of the `Notified` it waits on; a waker is a number too.
use faser.Prelude.{
  ℕ, zero, suc, Bool, true, false, if◌then◌else◌, Option, none, some, Outcome, done, panic, no_fuel,
  ◌>>=◌,
}
use faser.Uring.Entry.{Sqe}
use faser.Uring.Notify
use faser.Uring.Driver.{Driver, is_running, try_push_raw}

-- `PushFutureInner`: `notify`, and `entry`.
pub record PushFuture : Type 0 where
  pub waiting : Bool
  pub entry : Option Sqe

unfoldable pub new : Sqe → PushFuture
new e = record { waiting = false; entry = some e }

pub data Pushed : Type 0 where
  pending pushed shutting_down : Pushed

-- If the future does not wait any more: it did not, or its `Notified` has fired, and is dropped.
unfoldable pub poll_notify : ℕ → ℕ → PushFuture → Driver → Outcome (Bool × Driver)
poll_notify i k f d = elim f.waiting [
  | false ↦ done (true, d)
  | true ↦ do
    r ← Notify.poll i k d.backpressure
    elim r.0 [
      | true ↦ Notify.drop i r.1 >>= λ n. done (true, record d { backpressure = n })
      | false ↦ done (false, record d { backpressure = r.1 })
    ]
]

abbrev pub entry_of : PushFuture → Outcome Sqe
entry_of f = elim f.entry [ none ↦ panic | some e ↦ done e ]

-- `try_push`; if there is no room, a fresh `Notified`.
unfoldable pub attempt : ℕ → Sqe → Driver → Bool × Driver
attempt i e d =
    let (room, d') = try_push_raw e d in
    if room then (true, d') else (false, record d { backpressure = Notify.wait i d.backpressure })

-- The loop of `poll`, on the rounds that are left.
unfoldable pub poll_loop : ℕ → ℕ → ℕ → PushFuture → Driver → Outcome (Pushed × PushFuture × Driver)
poll_loop zero i k f d = no_fuel
poll_loop (suc n) i k f d = elim (is_running d.status) [
  | false ↦ done (shutting_down, f, d)
  | true ↦ do
    r ← poll_notify i k f d
    elim r.0 [
      | false ↦ done (pending, f, r.1)
      | true ↦ do
        e ← entry_of f
        elim ((attempt i e r.1).0) [
          | true ↦ done (pushed, record { waiting = false; entry = none }, (attempt i e r.1).1)
          | false ↦ poll_loop n i k (record { waiting = true; entry = some e }) (attempt i e r.1).1
        ]
    ]
]

-- Two rounds are enough: a fresh `Notified` is pending.
unfoldable pub poll : ℕ → ℕ → PushFuture → Driver → Outcome (Pushed × PushFuture × Driver)
poll i k f d = poll_loop 2 i k f d

-- The drop of the future, with its `Notified`.
unfoldable pub drop : ℕ → PushFuture → Driver → Outcome Driver
drop i f d =
    if f.waiting
    then (Notify.drop i d.backpressure >>= λ n. done (record d { backpressure = n }))
    else done d
