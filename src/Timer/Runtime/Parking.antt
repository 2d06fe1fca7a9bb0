-- ===== src/Timer/Runtime/Parking.antt =====
-- `Driver::park` of norn-timer/src/lib.rs on a wheel that may be shut down, with the firings it makes.
use faser.Prelude.{
  ℕ, ◌+◌, ◌/◌, ◌^◌, ◌<◌, ◌≤◌, ◌≡◌, inl, inr, refl, sym, ◌∙◌, ap, Bool, true, false, not, ltb,
  if◌then◌else◌, none, List, [], ◌++◌, done, All, arith, Bool-cases,
}
use faser.Timer.Ticks.{num_levels}
use faser.Timer.Level.{Entry, is_empty}
use faser.Timer.Wheels.{Wheels, Firing, advance, sweep, conclude, insert_all, next_expiration}
use faser.Timer.Wheels.Sums.{total}
use faser.Timer.Wheels.Sound.{WheelsSound, EmptyBelow, next_expiration-IsFirst}
use faser.Timer.Wheels.Settling.{count_fired, Due}
use faser.Timer.Wheels.Sweeping.{set_elapsed_lem}
use faser.Timer.Wheels.Advance.{Upcoming-Sound, advance-Advanced}
use faser.Timer.Driver.{ParkMode, no_park, nanos_per_milli, instant_to_tick, narrow, park}
use faser.Timer.Driver.Waking.{Wakes, narrow-Wakes}

-- The time has come to `ticks`: what is due left the wheel by firings for success, nothing else did.
pub record Passed (ticks : ℕ) (w w' : Wheels) : Type 0 where
  pub firings : List Firing
  pub fired_since : w'.firings ≡ firings ++ w.firings
  pub due : All (Due ticks) firings
  pub kept : (q : Entry → Bool) → total q w.wheels ≡ count_fired q firings + total q w'.wheels
  pub elapsed : w'.elapsed ≡ ticks
  pub same : w'.is_shutdown ≡ w.is_shutdown
  pub stays : w.is_shutdown ≡ true → EmptyBelow num_levels w'.wheels
  pub sound : WheelsSound ticks w'.wheels

-- A wheel in order that holds nothing has no next expiration.
empty_next :
    (w : Wheels)
    → WheelsSound w.elapsed w.wheels
    → EmptyBelow num_levels w.wheels
    → next_expiration w ≡ done none
empty_next w v e = elim (next_expiration-IsFirst w v) [
  | inl (stop, _) ↦ stop
  | inr (x, _, f) ↦
      let marked = (v x.level f.exists).marked x.slot f.next.slot in
      let nothing = ap (λ es. not (is_empty es)) (e x.level x.slot f.exists f.next.slot) in
      absurd (cc)
]

advance_empty :
    (now : ℕ) (w : Wheels)
    → WheelsSound w.elapsed w.wheels
    → EmptyBelow num_levels w.wheels
    → w.elapsed ≤ now
    → advance now w ≡ done ((0, none), record w { elapsed = now })
unfolding advance sweep conclude insert_all
advance_empty now w v e h = rw (empty_next w v e, set_elapsed_lem now w h) refl

module _ (nanos : ℕ) (mode : ParkMode) (w : Wheels) (b : nanos / nanos_per_milli < 2 ^ 64)
    (h : w.elapsed ≤ nanos / nanos_per_milli) (v : WheelsSound w.elapsed w.wheels) where
  abbrev ticks : ℕ
  ticks = nanos / nanos_per_milli

  abbrev pub Parks : Type 0
  Parks =
      (m : ParkMode) × (w' : Wheels) × (park nanos mode w ≡ done (m, w'))
      × Wakes ticks m w'.wheels
      × Passed ticks w w'

  small : ltb ticks (2 ^ 64) ≡ true
  small = ground arith

  alive : w.is_shutdown ≡ false → Parks
  unfolding park instant_to_tick
  alive s =
      let (fired, next, w', r, a) = advance-Advanced ticks w v s h in
      let chosen = if ltb 0 fired then no_park else mode in
      (
        narrow ticks next chosen,
        w',
        rw (small, r) refl,
        narrow-Wakes ticks next chosen w'.wheels a.later a.promise,
        record {
          firings = a.firings;
          fired_since = a.fired_since;
          due = a.due;
          kept = a.kept;
          elapsed = a.elapsed;
          same = a.alive ∙ sym s;
          stays = λ d. absurd (cc);
          sound = a.sound;
        },
      )

  stopped : EmptyBelow num_levels w.wheels → Parks
  unfolding park instant_to_tick
  stopped e = (
    narrow ticks none mode,
    record w { elapsed = ticks },
    rw (small, advance_empty ticks w v e h) refl,
    narrow-Wakes ticks none mode w.wheels (λ x d. cc) e,
    record {
      firings = [];
      fired_since = refl;
      due = tt;
      kept = λ q. omega arith;
      elapsed = refl;
      same = refl;
      stays = λ d. e;
      sound = Upcoming-Sound ticks w.elapsed w.wheels none h v (inl (refl, e));
    },
  )

  pub park-Passed : (w.is_shutdown ≡ true → EmptyBelow num_levels w.wheels) → Parks
  park-Passed e = elim (Bool-cases w.is_shutdown) [ inl s ↦ stopped (e s) | inr s ↦ alive s ]
