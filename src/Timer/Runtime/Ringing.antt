-- ===== src/Timer/Runtime/Ringing.antt =====
-- Which sleeps of norn-timer a park rings, and what the shutdown does to them.
use faser.Prelude.{
  ℕ, ◌+◌, ◌/◌, ◌^◌, ◌<◌, ◌≤◌, ◌≡◌, ◌≢◌, ◌⊎◌, inl, inr, refl, sym, ◌∙◌, ap, subst, Bool, true, List,
  [], ◌∷◌, ◌++◌, append-nil, All, All-map, arith, count_if, Ensures,
}
use faser.Timer.Level.{Entry, Level}
use faser.Timer.Wheels.{Wheels, Firing, ok, shutdown_error}
use faser.Timer.Wheels.Sums.{total, total_empty, count}
use faser.Timer.Wheels.Sound.{WheelsSound}
use faser.Timer.Wheels.Settling.{count_fired, Due}
use faser.Timer.Wheels.Due.{is_due, total_due}
use faser.Timer.Wheels.Stopping.{Stopped, shutdown-Stopped}
use faser.Timer.Driver.{ParkMode, nanos_per_milli}
use faser.Timer.Driver.Waking.{Wakes}
use faser.Timer.Sleep.{Sleep, registered, is_registered, fire}
use faser.Timer.Runtime.{Timers, fire_each, deliver, park, shutdown}
use faser.Timer.Runtime.Delivery.{of_id}
use faser.Timer.Runtime.Finding.{stale}
use faser.Timer.Runtime.Holding.{Holds, Told, fire_each-Told, fire_each-Holds, total-le}
use faser.Timer.Runtime.Parking.{Passed, park-Passed}
use faser.Timer.Runtime.Owning.{InOrder}

of_id-le :
    (i d now : ℕ)
    → d ≤ now
    → (e : Entry) → count_if (of_id i e) ≤ count_if (is_due now e) + count_if (stale i d e)
of_id-le i d now h e = ground arith

undue-le :
    (i d now : ℕ) (fs : List Firing)
    → now < d
    → All (Due now) fs
    → count_fired (of_id i) fs ≤ count_fired (stale i d) fs
undue-le i d now [] h a = omega arith
undue-le i d now (f ∷ fs) h a = ground (arith, undue-le i d now fs h a.1, a.0.due)

-- What a park at `ticks` does to the sleeps: those that are registered and due are fired for success,
-- the others stay as they are.
pub record Rung (ticks : ℕ) (t t' : Timers) : Type 0 where
  pub elapsed : t'.wheels.elapsed ≡ ticks
  pub same : t'.wheels.is_shutdown ≡ t.wheels.is_shutdown
  pub duration : t'.duration ≡ t.duration
  pub rings :
      (i : ℕ)
      → (t.sleeps i).state ≡ registered
      → (t.sleeps i).deadline ≤ ticks
      → t'.sleeps i ≡ fire ok (t.sleeps i)
  pub waits :
      (i : ℕ)
      → ((t.sleeps i).state ≢ registered) ⊎ (ticks < (t.sleeps i).deadline)
      → t'.sleeps i ≡ t.sleeps i

unregistered_lem : (s : Sleep) → s.state ≢ registered → count_if (is_registered s.state) ≡ 0
unregistered_lem s h = ground arith

module _ (ticks : ℕ) (t : Timers) (w' : Wheels) (v : InOrder t) (p : Passed ticks t.wheels w') where
  abbrev ws : ℕ → Level
  ws = t.wheels.wheels

  abbrev sleeps : ℕ → Sleep
  sleeps = fire_each p.firings t.sleeps

  told : Told ok p.firings t.sleeps sleeps
  told =
      fire_each-Told ok p.firings t.sleeps
        (All-map (Due ticks) (λ x. x.completion ≡ ok) (λ x d. d.completion) p.firings p.due)

  rings :
      (i : ℕ)
      → (t.sleeps i).state ≡ registered
      → (t.sleeps i).deadline ≤ ticks
      → sleeps i ≡ fire ok (t.sleeps i)
  rings i r d =
      let dl = (t.sleeps i).deadline in
      told.told i (
        omega (
          arith,
          p.kept (of_id i),
          p.kept (stale i dl),
          v.holds.held i,
          ap (λ s. count_if (is_registered s)) r,
          v.holds.dated i,
          total-le (of_id i) (is_due ticks) (stale i dl) (of_id-le i dl ticks d) w'.wheels,
          total_due ticks w'.wheels p.sound,
        ))

  waits :
      (i : ℕ)
      → ((t.sleeps i).state ≢ registered) ⊎ (ticks < (t.sleeps i).deadline)
      → sleeps i ≡ t.sleeps i
  waits i (inl h) =
      told.kept i (omega (arith, p.kept (of_id i), v.holds.held i, unregistered_lem (t.sleeps i) h))
  waits i (inr h) =
      let dl = (t.sleeps i).deadline in
      told.kept i
        (omega (arith, p.kept (stale i dl), v.holds.dated i, undue-le i dl ticks p.firings h p.due))

  since : w'.firings ≡ p.firings
  since = p.fired_since ∙ ap (λ fs. p.firings ++ fs) v.delivered ∙ append-nil p.firings

  holds : Holds w'.wheels sleeps
  holds =
      fire_each-Holds ok p.firings ws w'.wheels t.sleeps v.holds
        (All-map (Due ticks) (λ x. x.completion ≡ ok) (λ x d. d.completion) p.firings p.due) p.kept

  passed-Rung : Rung ticks t (deliver w' t)
  unfolding deliver
  passed-Rung = record {
    elapsed = p.elapsed;
    same = p.same;
    duration = refl;
    rings = λ i r d. ap (λ fs. fire_each fs t.sleeps i) since ∙ rings i r d;
    waits = λ i h. ap (λ fs. fire_each fs t.sleeps i) since ∙ waits i h;
  }

  passed-InOrder : ticks < 2 ^ 63 → InOrder (deliver w' t)
  unfolding deliver
  passed-InOrder b = record {
    sound = subst (λ e. WheelsSound e w'.wheels) (sym p.elapsed) p.sound;
    holds = subst (λ fs. Holds w'.wheels (fire_each fs t.sleeps)) (sym since) holds;
    delivered = refl;
    stopped = λ d. p.stays (sym p.same ∙ d);
    in_time = omega (arith, p.elapsed);
    near = v.near;
  }

-- From timers in order, a park at a tick that is not before the present one and less than 2^63
-- ends without a panic and leaves them in order at that tick: every registered sleep with a
-- deadline of at most the tick is fired for success, every other sleep stays as it is, and the
-- mode for the inner parker is a wait without end only if the wheel is left empty, and a timeout
-- only of a length that ends no later than the deadline of every timer that is left.
pub park-Rung :
    (nanos : ℕ) (mode : ParkMode) (t : Timers)
    → InOrder t
    → t.wheels.elapsed ≤ nanos / nanos_per_milli
    → nanos / nanos_per_milli < 2 ^ 63
    → Ensures
        (λ r.
          Rung (nanos / nanos_per_milli) t r.1
          × InOrder r.1
          × Wakes (nanos / nanos_per_milli) r.0 r.1.wheels.wheels)
        (park nanos mode t)
unfolding park deliver
park-Rung nanos mode t v h b =
    let (m, w', r, wakes, p) = park-Passed nanos mode t.wheels (omega arith) h v.sound v.stopped in
    rw r (
      passed-Rung (nanos / nanos_per_milli) t w' v p,
      passed-InOrder (nanos / nanos_per_milli) t w' v p b,
      wakes,
    )

-- What the shutdown does to the sleeps: those that are registered are fired with its error, the others
-- stay as they are.
pub record Silenced (t t' : Timers) : Type 0 where
  pub elapsed : t'.wheels.elapsed ≡ t.wheels.elapsed
  pub stopped : t'.wheels.is_shutdown ≡ true
  pub duration : t'.duration ≡ t.duration
  pub silences :
      (i : ℕ) → (t.sleeps i).state ≡ registered → t'.sleeps i ≡ fire shutdown_error (t.sleeps i)
  pub spares : (i : ℕ) → (t.sleeps i).state ≢ registered → t'.sleeps i ≡ t.sleeps i

module _ (t : Timers) (w' : Wheels) (v : InOrder t) (p : Stopped t.wheels w') where
  emptied : (q : Entry → Bool) → total q w'.wheels ≡ 0
  emptied q = total_empty q w'.wheels (λ i s h k. ap (count q) (p.empty i s h k))

  left : (q : Entry → Bool) → total q t.wheels.wheels ≡ count_fired q p.firings + total q w'.wheels
  left q = omega (arith, p.all q, emptied q)

  stopped_firings : w'.firings ≡ p.firings
  stopped_firings = p.fired_since ∙ ap (λ fs. p.firings ++ fs) v.delivered ∙ append-nil p.firings

  stopped-Told : Told shutdown_error p.firings t.sleeps (fire_each w'.firings t.sleeps)
  stopped-Told =
      subst (λ fs. Told shutdown_error p.firings t.sleeps (fire_each fs t.sleeps))
        (sym stopped_firings) (fire_each-Told shutdown_error p.firings t.sleeps p.told)

  stopped-Silenced : Silenced t (deliver w' t)
  unfolding deliver
  stopped-Silenced = record {
    elapsed = p.elapsed;
    stopped = p.stopped;
    duration = refl;
    silences = λ i r.
        stopped-Told.told i
          (p.all (of_id i) ∙ v.holds.held i ∙ ap (λ s. count_if (is_registered s)) r);
    spares = λ i h.
        stopped-Told.kept i (p.all (of_id i) ∙ v.holds.held i ∙ unregistered_lem (t.sleeps i) h);
  }

  stopped-InOrder : InOrder (deliver w' t)
  unfolding deliver
  stopped-InOrder = record {
    sound = p.sound;
    holds =
        subst (λ fs. Holds w'.wheels (fire_each fs t.sleeps)) (sym stopped_firings)
          (fire_each-Holds shutdown_error p.firings t.wheels.wheels w'.wheels t.sleeps v.holds
            p.told left);
    delivered = refl;
    stopped = λ d. p.empty;
    in_time = omega (arith, p.elapsed, v.in_time);
    near = v.near;
  }

-- From timers in order, the shutdown of the driver ends, within the fuel of its loop and without a
-- panic, and leaves them in order: every sleep that is registered is fired with the error of the
-- shutdown, the others stay as they are, and the wheel is shut down.
pub shutdown-Silenced :
    (t : Timers) → InOrder t → Ensures (λ t'. Silenced t t' × InOrder t') (shutdown t)
unfolding shutdown
shutdown-Silenced t v =
    let (w', r, p) = shutdown-Stopped t.wheels v.sound in
    rw r (stopped-Silenced t w' v p, stopped-InOrder t w' v p)
