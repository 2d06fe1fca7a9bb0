-- ===== src/Timer/Runtime/Leaving.antt =====
-- The drop of a `Sleep` of norn-timer/src/entry.rs leaves no pointer to it in the wheel.
use faser.Prelude.{ℕ, ◌≡◌, ◌≢◌, refl, sym, ◌∙◌, ap, false, done, arith, count_if, ◌>>=◌, Ensures}
use faser.Timer.Bits.{update, update_self, update_other}
use faser.Timer.Level.{Entry}
use faser.Timer.Wheels.{Wheels}
use faser.Timer.Wheels.Sums.{total, total_empty, count}
use faser.Timer.Wheels.Removing.{Removed, remove-Removed}
use faser.Timer.Sleep.{SleepState, Sleep, unregistered, registered, fired, is_registered}
use faser.Timer.Sleep
use faser.Timer.Runtime.{Timers, forget, drop}
use faser.Timer.Runtime.Delivery.{of_id}
use faser.Timer.Runtime.Finding.{stale, entry-found}
use faser.Timer.Runtime.Holding.{update-Holds, total-stale}
use faser.Timer.Runtime.Owning.{InOrder}

-- Nothing but the sleep `i` and its place in the wheel has changed.
pub record Apart (i : ℕ) (t t' : Timers) : Type 0 where
  pub elapsed : t'.wheels.elapsed ≡ t.wheels.elapsed
  pub same : t'.wheels.is_shutdown ≡ t.wheels.is_shutdown
  pub duration : t'.duration ≡ t.duration
  pub others : (j : ℕ) → j ≢ i → t'.sleeps j ≡ t.sleeps j

-- The sleep is new again, and the wheel has no entry of it.
pub record Dropped (i : ℕ) (t t' : Timers) : Type 0 where
  pub apart : Apart i t t'
  pub gone : total (of_id i) t'.wheels.wheels ≡ 0
  pub fresh : t'.sleeps i ≡ Sleep.new

pub of_other : (i j d : ℕ) → j ≢ i → count_if (of_id j (record { id = i; deadline = d })) ≡ 0
of_other i j d h = ground arith

pub stale_other : (i j d c : ℕ) → j ≢ i → count_if (stale j c (record { id = i; deadline = d })) ≡ 0
stale_other i j d c h = ground arith

pub of_self : (i d : ℕ) → count_if (of_id i (record { id = i; deadline = d })) ≡ 1
of_self i d = ground arith

module _ (i : ℕ) (t : Timers) (v : InOrder t) where
  abbrev dropped : Wheels → Timers
  dropped w = record t { wheels = w; sleeps = update t.sleeps i Sleep.new }

  abbrev entry : Entry
  entry = record { id = i; deadline = (t.sleeps i).deadline }

  dropped-Dropped :
      (w : Wheels)
      → w.elapsed ≡ t.wheels.elapsed
      → w.is_shutdown ≡ t.wheels.is_shutdown
      → total (of_id i) w.wheels ≡ 0
      → Dropped i t (dropped w)
  dropped-Dropped w e s g = record {
    apart = record {
      elapsed = e;
      same = s;
      duration = refl;
      others = λ j h. update_other t.sleeps i Sleep.new j h;
    };
    gone = g;
    fresh = update_self t.sleeps i Sleep.new;
  }

  -- An unregistered sleep is dropped.
  loose :
      (is_registered ((t.sleeps i).state) ≡ false)
      → Dropped i t (dropped t.wheels) × InOrder (dropped t.wheels)
  unfolding Sleep.new
  loose e =
      let none : total (of_id i) t.wheels.wheels ≡ 0 = v.holds.held i ∙ ap count_if e in
      (
        dropped-Dropped t.wheels refl refl none,
        record {
          sound = v.sound;
          holds =
              update-Holds i Sleep.new t.wheels.wheels t.wheels.wheels t.sleeps v.holds
                (λ j h. refl) (λ j h. refl) none
                (omega (arith, total-stale i (Sleep.new).deadline t.wheels.wheels, none));
          delivered = v.delivered;
          stopped = v.stopped;
          in_time = v.in_time;
          near = v.near;
        },
      )

  -- A registered one.
  linked :
      (w : Wheels)
      → (t.sleeps i).state ≡ registered
      → Removed entry t.wheels w
      → Dropped i t (dropped w) × InOrder (dropped w)
  unfolding Sleep.new
  linked w e r =
      let one : total (of_id i) t.wheels.wheels ≡ 1 =
        v.holds.held i ∙ ap (λ s. count_if (is_registered s)) e in
      let none : total (of_id i) w.wheels ≡ 0 =
        omega (arith, r.gone (of_id i), one, of_self i (t.sleeps i).deadline) in
      (
        dropped-Dropped w r.elapsed r.alive none,
        record {
          sound = r.sound;
          holds =
              update-Holds i Sleep.new t.wheels.wheels w.wheels t.sleeps v.holds
                (λ j h. omega (arith, r.gone (of_id j), of_other i j (t.sleeps i).deadline h))
                (λ j h. omega (
                  arith,
                  r.gone (stale j (t.sleeps j).deadline),
                  stale_other i j (t.sleeps i).deadline (t.sleeps j).deadline h,
                ))
                none (omega (arith, total-stale i (Sleep.new).deadline w.wheels, none));
          delivered = r.firings ∙ v.delivered;
          stopped = λ d.
              let empty = v.stopped (sym r.alive ∙ d) in
              let zero : total (of_id i) t.wheels.wheels ≡ 0 =
                total_empty (of_id i) t.wheels.wheels
                  (λ j s h k. ap (count (of_id i)) (empty j s h k)) in
              absurd (omega (arith, one, zero));
          in_time = omega (arith, r.elapsed, v.in_time);
          near = v.near;
        },
      )

  drop_by :
      (s : SleepState)
      → (t.sleeps i).state ≡ s
      → Ensures
          (λ t'. Dropped i t t' × InOrder t')
          (forget s i t >>= λ t'. done (record t' { sleeps = update t'.sleeps i Sleep.new }))
  drop_by unregistered e = loose (ap is_registered e)
  drop_by fired e = loose (ap is_registered e)
  drop_by registered e =
      let one : total (of_id i) t.wheels.wheels ≡ 1 =
        v.holds.held i ∙ ap (λ s. count_if (is_registered s)) e in
      let (level, p, l) =
        entry-found t.wheels.elapsed i (t.sleeps i).deadline t.wheels.wheels v.sound
          (omega (arith, one)) (v.holds.dated i) in
      let (w, q, r) = remove-Removed entry level t.wheels v.sound p l in rw q (linked w e r)

-- From timers in order, the drop of a `Sleep` ends without a panic and leaves them in order, with
-- no entry of the sleep in the wheel and every other sleep as it is.
pub drop-Dropped :
    (i : ℕ) (t : Timers) → InOrder t → Ensures (λ t'. Dropped i t t' × InOrder t') (drop i t)
unfolding drop
drop-Dropped i t v = drop_by i t v ((t.sleeps i).state) refl
