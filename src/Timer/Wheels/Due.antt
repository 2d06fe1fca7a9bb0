-- ===== src/Timer/Wheels/Due.antt =====
-- Which timers `Wheels::advance` of norn-timer/src/wheels.rs fires: all that are due, and no other.
use faser.Prelude.{
  ℕ, ◌≤◌, ◌<◌, ◌≡◌, refl, subst, Bool, false, Option, List, [], ◌∷◌, done, arith, All, leb,
}
use native.Mathlib.Nat.{one-le-pow, div-mul-le_self}
use faser.Timer.Ticks.{slot_range}
use faser.Timer.Ticks.Placement.{Placed}
use faser.Timer.Level.{Entry, Expiration, Level}
use faser.Timer.Level.Next.{Lies}
use faser.Timer.Wheels.{Wheels, Firing, advance}
use faser.Timer.Wheels.Sums.{count, total, total_empty}
use faser.Timer.Wheels.Sound.{WheelsSound, lt_start}
use faser.Timer.Wheels.Settling.{Due, length, count_fired}
use faser.Timer.Wheels.Advance.{Advanced, advance-Advanced}

-- The entries whose deadline has come.
abbrev pub is_due : ℕ → Entry → Bool
is_due now e = leb e.deadline now

Placed-lt : (level : ℕ) {now deadline : ℕ} → Placed now deadline level → now < deadline
Placed-lt level {now} {deadline} p = omega (
  arith,
  lt_start now deadline (slot_range level) (one-le-pow level 64 (omega arith)) p.ahead,
  div-mul-le_self deadline (slot_range level),
)

count_due_here :
    (now level s : ℕ) (xs : List Entry) → All (Lies now level s) xs → count (is_due now) xs ≡ 0
count_due_here now level s [] h = refl
count_due_here now level s (x ∷ xs) h =
    ground (arith, Placed-lt level h.0.placed, count_due_here now level s xs h.1)

-- Nothing that a wheel in order holds is due.
pub total_due : (now : ℕ) (ws : ℕ → Level) → WheelsSound now ws → total (is_due now) ws ≡ 0
total_due now ws v =
    total_empty (is_due now) ws
      (λ i s h k. count_due_here now i s ((ws i).slots s) ((v i h).lies s k))

count_due_fired :
    (now : ℕ) (fs : List Firing) → All (Due now) fs → count_fired (is_due now) fs ≡ length fs
count_due_fired now [] h = refl
count_due_fired now (f ∷ fs) h = ground (arith, h.0.due, count_due_fired now fs h.1)

Advanced-fired :
    (now fired : ℕ) (next : Option Expiration) (w w' : Wheels)
    → Advanced now w fired next w'
    → fired ≡ total (is_due now) w.wheels
Advanced-fired now fired next w w' a = omega (
  arith,
  a.counted,
  a.kept (is_due now),
  count_due_fired now a.firings a.due,
  total_due now w'.wheels a.sound,
)

-- From a wheel in order that is not shut down and not past `now`, `advance now` ends within its
-- fuel and without a failed assertion, the number of timers that it fires is the number of entries
-- with a deadline of at most `now`, and it leaves none of these in the wheel.
pub advance_fired :
    (now : ℕ) (w : Wheels)
    → WheelsSound w.elapsed w.wheels
    → w.is_shutdown ≡ false
    → w.elapsed ≤ now
    → (next : Option Expiration) × (w' : Wheels) × (advance now w
        ≡ done ((total (is_due now) w.wheels, next), w'))
      × (total (is_due now) w'.wheels ≡ 0)
advance_fired now w v s h =
    let (fired, next, w', r, a) = advance-Advanced now w v s h in
    (
      next,
      w',
      subst (λ n. advance now w ≡ done ((n, next), w')) (Advanced-fired now fired next w w' a) r,
      total_due now w'.wheels a.sound,
    )
