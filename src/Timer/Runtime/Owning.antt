-- ===== src/Timer/Runtime/Owning.antt =====
-- What holds of the timers of norn-timer between two calls.
use faser.Prelude.{ℕ, ◌*◌, ◌/◌, ◌^◌, ◌≤◌, ◌<◌, ◌≡◌, refl, true, [], arith}
use faser.Timer.Ticks.{num_levels}
use faser.Timer.Level
use faser.Timer.Wheels
use faser.Timer.Wheels.Sums.{sum_to}
use faser.Timer.Wheels.Sound.{WheelsSound, EmptyBelow, new-Sound}
use faser.Timer.Sleep
use faser.Timer.Runtime.{Timers, new}
use faser.Timer.Runtime.Holding.{Holds}

-- The wheel is in order and holds an entry for each sleep that is registered, with its deadline, and
-- nothing else, and nothing once it is shut down; all firings have reached their sleeps. The tick is
-- far from the end of a `u64`, and no duration reaches a turn of the highest level.
pub record InOrder (t : Timers) : Type 0 where
  pub sound : WheelsSound t.wheels.elapsed t.wheels.wheels
  pub holds : Holds t.wheels.wheels t.sleeps
  pub delivered : t.wheels.firings ≡ []
  pub stopped : t.wheels.is_shutdown ≡ true → EmptyBelow num_levels t.wheels.wheels
  pub in_time : t.wheels.elapsed < 2 ^ 63
  pub near : (i : ℕ) → t.duration i / 10 ^ 6 ≤ 63 * 2 ^ 30

-- New timers are in order.
pub new-InOrder : (d : ℕ → ℕ) → ((i : ℕ) → d i / 10 ^ 6 ≤ 63 * 2 ^ 30) → InOrder (new d)
unfolding new Wheels.new Level.new Sleep.new sum_to
new-InOrder d h = record {
  sound = new-Sound;
  holds = record { held = λ i. refl; dated = λ i. refl };
  delivered = refl;
  stopped = λ e i s a b. refl;
  in_time = omega arith;
  near = h;
}
