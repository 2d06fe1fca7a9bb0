-- ===== src/Timer/Driver/Waking.antt =====
-- The timer driver of norn-timer/src/lib.rs never asks to sleep through a timer.
use faser.Prelude.{
  ℕ, ◌+◌, ◌-◌, ◌*◌, ◌/◌, ◌^◌, ◌≤◌, ◌<◌, ◌≡◌, refl, sym, subst, true, false, ltb, if◌then◌else◌,
  Option, none, some, done, All, All-map, arith,
}
use faser.Timer.Ticks.{num_levels}
use faser.Timer.Level.{Expiration, Level}
use faser.Timer.Wheels.{Wheels}
use faser.Timer.Wheels.Sound.{WheelsSound, EmptyBelow}
use faser.Timer.Wheels.Advance.{Promises, advance-Advanced}
use faser.Timer.Driver.{
  ParkMode, no_park, next_completion, timeout, nanos_per_milli, instant_to_tick, tick_to_duration,
  narrow, park,
}

-- A parker that is called in this mode at tick `ticks` comes back before any timer is overdue.
abbrev pub Wakes : ℕ → ParkMode → (ℕ → Level) → Type 0
Wakes ticks no_park ws = Unit {0}
Wakes ticks next_completion ws = EmptyBelow num_levels ws
Wakes ticks (timeout d) ws =
    (i s : ℕ)
    → i < num_levels
    → s < 64
    → All (λ e. ticks * nanos_per_milli + d ≤ e.deadline * nanos_per_milli) ((ws i).slots s)

-- Until the expiration, or for less.
sleeps :
    (ticks d : ℕ) (x : Expiration) (ws : ℕ → Level)
    → ticks < x.deadline
    → d ≤ (x.deadline - ticks) * nanos_per_milli
    → Promises (some x) ws
    → Wakes ticks (timeout d) ws
sleeps ticks d x ws h k p i s a b =
    All-map (λ e. x.deadline ≤ e.deadline)
      (λ e. ticks * nanos_per_milli + d ≤ e.deadline * nanos_per_milli) (λ e m. omega arith)
      ((ws i).slots s) (p i s a b)

pub narrow-Wakes :
    (ticks : ℕ) (next : Option Expiration) (mode : ParkMode) (ws : ℕ → Level)
    → ((x : Expiration) → next ≡ some x → ticks < x.deadline)
    → Promises next ws
    → Wakes ticks (narrow ticks next mode) ws
unfolding narrow tick_to_duration
narrow-Wakes ticks none no_park ws h p = tt
narrow-Wakes ticks none next_completion ws h p = p
narrow-Wakes ticks none (timeout d) ws h p = λ i s a b.
    subst (All (λ e. ticks * nanos_per_milli + d ≤ e.deadline * nanos_per_milli)) (sym (p i s a b))
      tt
narrow-Wakes ticks (some x) (timeout d) ws h p = sleeps ticks _ x ws (h x refl) (omega arith) p
narrow-Wakes ticks (some x) no_park ws h p = sleeps ticks _ x ws (h x refl) (omega arith) p
narrow-Wakes ticks (some x) next_completion ws h p = sleeps ticks _ x ws (h x refl) (omega arith) p

-- From a wheel in order that is not shut down and not past the present tick, `Driver::park` never
-- sleeps through a timer: it ends, the wheel is in order at the present tick, and the mode that it
-- hands to the inner parker is a wait without end only if the wheel is empty, and a timeout only
-- of a length that ends no later than the deadline of every timer that is left.
pub park-Wakes :
    (nanos : ℕ) (mode : ParkMode) (w : Wheels)
    → nanos / nanos_per_milli < 2 ^ 64
    → w.elapsed ≤ nanos / nanos_per_milli
    → w.is_shutdown ≡ false
    → WheelsSound w.elapsed w.wheels
    → (m : ParkMode) × (w' : Wheels) × (park nanos mode w ≡ done (m, w'))
      × Wakes (nanos / nanos_per_milli) m w'.wheels
      × WheelsSound (nanos / nanos_per_milli) w'.wheels
unfolding park instant_to_tick
park-Wakes nanos mode w b h s v =
    let ticks = nanos / nanos_per_milli in
    let (fired, next, w', r, a) = advance-Advanced ticks w v s h in
    let small : ltb ticks (2 ^ 64) ≡ true = ground arith in
    let chosen = if ltb 0 fired then no_park else mode in
    (
      narrow ticks next chosen,
      w',
      rw (small, r) refl,
      narrow-Wakes ticks next chosen w'.wheels a.later a.promise,
      a.sound,
    )
