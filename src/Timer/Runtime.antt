-- ===== src/Timer/Runtime.antt =====
-- norn-timer as a whole: the wheel of `Rc<Wheels>` with every `Sleep` that shares it (lib.rs, entry.rs
-- and wheels.rs). A `Sleep` is a number; its duration is in nanoseconds. The number of one that is
-- dropped stands for a new one afterwards. A firing of the wheel reaches its entry at once.
pub mod Clock
pub mod Delivery
pub mod Finding
pub mod Holding
pub mod Parking
pub mod Owning
pub mod Ringing
pub mod Leaving
pub mod Starting
pub mod Polling
pub mod OnTime
mod Tests
use faser.Prelude.{
  ℕ, ◌+◌, ◌/◌, ◌%◌, ◌^◌, Bool, true, false, ◌==◌, if◌then◌else◌, Option, List, [], ◌∷◌, Outcome,
  done, ◌>>=◌,
}
use faser.Timer.Bits.{update}
use faser.Timer.Wheels.{Wheels, Firing, Completion, remove, add}
use faser.Timer.Wheels
use faser.Timer.Driver.{ParkMode}
use faser.Timer.Driver
use faser.Timer.Sleep.{
  SleepState, Sleep, unregistered, registered, fired, settled, set_registered, fire,
}
use faser.Timer.Sleep

pub record Timers : Type 0 where
  pub wheels : Wheels
  pub sleeps : ℕ → Sleep
  pub duration : ℕ → ℕ

unfoldable pub new : (ℕ → ℕ) → Timers
new duration = record { wheels = Wheels.new; sleeps = λ i. Sleep.new; duration = duration }

-- The firings, the latest first, told to their entries.
unfoldable pub fire_each : List Firing → (ℕ → Sleep) → ℕ → Sleep
fire_each [] f = f
fire_each (x ∷ xs) f =
    let g = fire_each xs f in update g x.entry.id (fire x.completion (g x.entry.id))

unfoldable pub deliver : Wheels → Timers → Timers
deliver w t = record t { wheels = record w { firings = [] }; sleeps = fire_each w.firings t.sleeps }

-- Milliseconds, cut to 64 bits.
abbrev pub expiration : ℕ → Timers → ℕ
expiration i t = t.wheels.elapsed + t.duration i / 10 ^ 6 % 2 ^ 64

-- `TimerList::add` with what it does to the entry: one without a duration is not registered first.
unfoldable pub begin : ℕ → Timers → Outcome Timers
begin i t = do
  w ← add i (t.duration i) t.wheels
  s ← if t.duration i == 0 then done (t.sleeps i) else set_registered (expiration i t) (t.sleeps i)
  done (deliver w (record t { sleeps = update t.sleeps i s }))

-- The branches of the loop in `Sleep::poll` that return.
unfoldable pub answer : ℕ → ℕ → Timers → Outcome (Option Completion × Timers)
answer i k t = do
  r ← settled ((t.sleeps i).state) k (t.sleeps i)
  done (r.0, record t { sleeps = update t.sleeps i r.1 })

abbrev pub poll_in : SleepState → ℕ → ℕ → Timers → Outcome (Option Completion × Timers)
poll_in unregistered i k t = begin i t >>= answer i k
poll_in registered i k t = answer i k t
poll_in fired i k t = answer i k t

-- `Sleep::poll` with the waker `k`.
unfoldable pub poll : ℕ → ℕ → Timers → Outcome (Option Completion × Timers)
poll i k t = poll_in ((t.sleeps i).state) i k t

-- `TimerList::remove` of a registered entry.
abbrev pub forget : SleepState → ℕ → Timers → Outcome Timers
forget registered i t = do
  w ← remove (record { id = i; deadline = (t.sleeps i).deadline }) t.wheels
  done (record t { wheels = w })
forget s i t = done t

-- The drop of a `Sleep`.
unfoldable pub drop : ℕ → Timers → Outcome Timers
drop i t = do
  t' ← forget ((t.sleeps i).state) i t
  done (record t' { sleeps = update t'.sleeps i Sleep.new })

unfoldable pub reset : ℕ → Timers → Outcome Timers
reset i t = do
  t' ← forget ((t.sleeps i).state) i t
  s ← Sleep.reset (t'.sleeps i)
  done (record t' { sleeps = update t'.sleeps i s })

-- `Driver::park`, `nanos` after the start of the clock; the mode is that for the inner parker.
unfoldable pub park : ℕ → ParkMode → Timers → Outcome (ParkMode × Timers)
park nanos mode t = do r ← Driver.park nanos mode t.wheels; done (r.0, deliver r.1 t)

-- `Driver::shutdown`, but for the inner parker.
unfoldable pub shutdown : Timers → Outcome Timers
shutdown t = do w ← Wheels.shutdown t.wheels; done (deliver w t)

pub data Action : Type 0 where
  polls : ℕ → ℕ → Action
  drops resets : ℕ → Action
  parks : ℕ → ParkMode → Action
  shuts : Action

unfoldable pub perform : Action → Timers → Outcome Timers
perform (polls i k) t = poll i k t >>= λ r. done r.1
perform (drops i) t = drop i t
perform (resets i) t = reset i t
perform (parks nanos mode) t = park nanos mode t >>= λ r. done r.1
perform shuts t = shutdown t

unfoldable pub run : List Action → Timers → Outcome Timers
run [] t = done t
run (a ∷ more) t = perform a t >>= run more
