-- ===== src/Timer/Runtime/Tests.antt =====
-- Runs of the timers of norn-timer as a whole, and the theorems about them at concrete ones.
use faser.Prelude.{
  ◌+◌, ◌*◌, ◌/◌, ◌^◌, ◌≡◌, refl, ◌∙◌, subst, done, panic, arith, ◌>>=◌, Ensures, Ensures-weaken,
  Option, List, [], ◌∷◌, Outcome,
}
use faser.Timer.Driver.{no_park, nanos_per_milli}
use faser.Timer.Driver.Waking.{Wakes}
use faser.Timer.Wheels.{Completion, ok}
use faser.Timer.Wheels
use faser.Timer.Sleep
use faser.Timer.Runtime.Clock
use faser.Timer.Runtime.{
  Timers, new, poll, drop, park, shutdown, run, perform, Action, parks, drops, polls,
}
use faser.Timer.Runtime.Owning.{InOrder, new-InOrder}
use faser.Timer.Runtime.Ringing.{Rung, park-Rung, Silenced, shutdown-Silenced}
use faser.Timer.Runtime.Leaving.{Dropped, drop-Dropped}
use faser.Timer.Runtime.Starting.{millis}
use faser.Timer.Runtime.Polling.{Polled, elapsed-poll, poll-Polled, Polled-InOrder, perform-InOrder}
use faser.Timer.Runtime.OnTime.{OnTime, AllLeave, sleep-OnTime}

-- Every sleep is for five milliseconds.
abbrev five : Timers
five = new (λ i. 5 * 10 ^ 6)

five-InOrder : InOrder five
five-InOrder = new-InOrder (λ i. 5 * 10 ^ 6) (λ i. omega arith)

Ensures-at : {A : Type 0} (P : A → Type 0) (m : Outcome A) (a : A) → m ≡ done a → Ensures P m → P a
Ensures-at P m a e p = subst (Ensures P) e p

abbrev later : List Action
later = parks (7 * 10 ^ 6) no_park ∷ drops 1 ∷ []

five_elapsed : five.wheels.elapsed ≡ 0
unfolding new Wheels.new
five_elapsed = refl

AllLeave-later : (r : Option Completion × Timers) → poll 0 9 five ≡ done r → AllLeave 0 later r.1
AllLeave-later r e =
    let p = Ensures-at (Polled 0 9 five) (poll 0 9 five) r e (poll-Polled 0 9 five five-InOrder) in
    (
      (omega (arith, elapsed-poll 0 9 five r p, five_elapsed), omega arith),
      tt,
      λ t' q. (tt, omega arith, λ u s. tt),
    )

sleep-OnTime_example :
    Ensures
      (OnTime (five.wheels.elapsed + millis 0 five))
      (poll 0 9 five >>= λ r. run later r.1 >>= poll 0 8)
unfolding new Wheels.new Sleep.new
sleep-OnTime_example = sleep-OnTime 0 9 8 later five five-InOrder refl refl AllLeave-later

perform-InOrder_example : Ensures InOrder (perform (polls 0 9) five)
perform-InOrder_example = perform-InOrder (polls 0 9) five five-InOrder tt

-- The timers after a call that ends.
abbrev after : Outcome (Option Completion × Timers) → Timers
after (done r) = r.1
after m = five

after-lem :
    (P : Timers → Type 0) (m : Outcome (Option Completion × Timers))
    → Ensures (λ r. P r.1) m
    → P (after m)
after-lem P (done r) p = p
after-lem P panic p = absurd p
after-lem P Outcome.fault p = absurd p
after-lem P Outcome.no_fuel p = absurd p

-- Sleep 0 is registered for tick 5.
abbrev armed : Timers
armed = after (poll 0 9 five)

armed_lem : InOrder armed × armed.wheels.elapsed ≡ 0
armed_lem =
    after-lem (λ t. InOrder t × t.wheels.elapsed ≡ 0) (poll 0 9 five)
      (Ensures-weaken (Polled 0 9 five) _ (poll 0 9 five)
        (λ r p. (Polled-InOrder 0 9 five r p, elapsed-poll 0 9 five r p ∙ five_elapsed))
        (poll-Polled 0 9 five five-InOrder))

park-Rung_example :
    Ensures
      (λ r.
        Rung (7 * 10 ^ 6 / nanos_per_milli) armed r.1
        × InOrder r.1
        × Wakes (7 * 10 ^ 6 / nanos_per_milli) r.0 r.1.wheels.wheels)
      (park (7 * 10 ^ 6) no_park armed)
park-Rung_example =
    park-Rung (7 * 10 ^ 6) no_park armed armed_lem.0 (omega (arith, armed_lem.1)) (omega arith)

shutdown-Silenced_example : Ensures (λ t'. Silenced armed t' × InOrder t') (shutdown armed)
shutdown-Silenced_example = shutdown-Silenced armed armed_lem.0

drop-Dropped_example : Ensures (λ t'. Dropped 0 armed t' × InOrder t') (drop 0 armed)
drop-Dropped_example = drop-Dropped 0 armed armed_lem.0

-- Only a simulated clock can be advanced.
advance_simulated :
    Clock.tick 20 (record { start = 10; time = Clock.simulated (5 * 10 ^ 6) }) ≡ done 5
unfolding Clock.tick Clock.running Clock.now faser.Timer.Driver.instant_to_tick
advance_simulated = refl

advance_system : Clock.advance 5 (Clock.system_clock 10) ≡ panic
unfolding Clock.advance Clock.system_clock
advance_system = refl
