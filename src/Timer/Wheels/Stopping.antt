-- ===== src/Timer/Wheels/Stopping.antt =====
-- `Wheels::shutdown` of norn-timer/src/wheels.rs fires all that the wheel holds.
use faser.Prelude.{
  ℕ, zero, suc, ◌+◌, ◌<◌, ◌≡◌, inl, inr, refl, sym, ◌∙◌, ap, subst, Bool, true, List, [], ◌∷◌, ◌++◌,
  append_assoc, done, ◌>>=◌, arith, All,
}
use faser.Timer.Ticks.{num_levels}
use faser.Timer.Level.{Entry, Expiration, take_slot}
use faser.Timer.Wheels.{
  Wheels, Firing, shutdown_error, fire, fire_all, drain, rounds, shutdown, take_entries,
  next_expiration,
}
use faser.Timer.Wheels.Sums.{count, total, total_empty, marks, marks_le}
use faser.Timer.Wheels.Sound.{WheelsSound, EmptyBelow, IsFirst, next_expiration-IsFirst}
use faser.Timer.Wheels.Taking.{rest-Sound_now, total-rest, marks-rest}
use faser.Timer.Wheels.Settling.{count_fired}

-- All is fired for the shutdown, each entry as often as the wheel held it.
pub record Stopped (w w' : Wheels) : Type 0 where
  pub elapsed : w'.elapsed ≡ w.elapsed
  pub firings : List Firing
  pub fired_since : w'.firings ≡ firings ++ w.firings
  pub told : All (λ x. x.completion ≡ shutdown_error) firings
  pub all : (q : Entry → Bool) → count_fired q firings ≡ total q w.wheels
  pub empty : EmptyBelow num_levels w'.wheels
  pub sound : WheelsSound w'.elapsed w'.wheels
  pub stopped : w'.is_shutdown ≡ true

module _ (q : Entry → Bool) where
  count_fired-append :
      (fs gs : List Firing) → count_fired q (fs ++ gs) ≡ count_fired q fs + count_fired q gs
  count_fired-append [] gs = omega arith
  count_fired-append (f ∷ fs) gs = omega (arith, count_fired-append fs gs)

-- The firings of a list of entries, the latest first, before others.
pub record FiresAll (es : List Entry) (w w' : Wheels) : Type 0 where
  pub firings : List Firing
  pub fired_since : w' ≡ record w { firings = firings ++ w.firings }
  pub told : All (λ x. x.completion ≡ shutdown_error) firings
  pub all : (q : Entry → Bool) → count_fired q firings ≡ count q es

All-append : (P : Firing → Type 0) (fs gs : List Firing) → All P fs → All P gs → All P (fs ++ gs)
All-append P [] gs h k = k
All-append P (f ∷ fs) gs h k = (h.0, All-append P fs gs h.1 k)

fire_all_lem : (es : List Entry) (w : Wheels) → FiresAll es w (fire_all shutdown_error es w)
unfolding fire_all fire
fire_all_lem [] w = record { firings = []; fired_since = refl; told = tt; all = λ q. refl }
fire_all_lem (e ∷ es) w =
    let m = fire_all_lem es (fire shutdown_error e w) in
    let one : List Firing = record { entry = e; completion = shutdown_error } ∷ [] in
    record {
      firings = m.firings ++ one;
      fired_since =
          m.fired_since
          ∙ ap (λ fs. record w { firings = fs }) (sym (append_assoc m.firings one w.firings));
      told = All-append (λ x. x.completion ≡ shutdown_error) m.firings one m.told (refl, tt);
      all = λ q. omega (arith, m.all q, count_fired-append q m.firings one);
    }

module _ (w : Wheels) where
  -- A round of the loop.
  abbrev emptied : Expiration → Wheels
  emptied x = fire_all shutdown_error (take_entries x w).0 (take_entries x w).1

  since-Stopped :
      (x : Expiration) (w' : Wheels)
      → WheelsSound w.elapsed w.wheels
      → IsFirst w.elapsed w.wheels x
      → Stopped (emptied x) w'
      → Stopped w w'
  unfolding take_entries take_slot
  since-Stopped x w' v f t =
      let m = fire_all_lem (take_entries x w).0 (take_entries x w).1 in
      record {
        elapsed = t.elapsed ∙ ap (λ u. u.elapsed) m.fired_since;
        firings = t.firings ++ m.firings;
        fired_since =
            t.fired_since
            ∙ ap (λ u. t.firings ++ u.firings) m.fired_since
            ∙ sym (append_assoc t.firings m.firings w.firings);
        told = All-append (λ y. y.completion ≡ shutdown_error) t.firings m.firings t.told m.told;
        all = λ q. omega (
          arith,
          count_fired-append q t.firings m.firings,
          t.all q,
          m.all q,
          total-rest v f q,
          ap (λ u. total q u.wheels) m.fired_since,
        );
        empty = t.empty;
        sound = t.sound;
        stopped = t.stopped;
      }

drain_lem :
    (fuel : ℕ) (w : Wheels)
    → WheelsSound w.elapsed w.wheels
    → w.is_shutdown ≡ true
    → marks w.wheels < fuel
    → (w' : Wheels) × ((next_expiration w >>= λ o. drain fuel o w) ≡ done w') × Stopped w w'
unfolding drain take_entries take_slot
drain_lem zero w v a m = elim m [ ]
drain_lem (suc fuel) w v a m = elim (next_expiration-IsFirst w v) [
  | inl (stop, empty) ↦ (
    w,
    rw stop refl,
    record {
      elapsed = refl;
      firings = [];
      fired_since = refl;
      told = tt;
      all = λ q. sym (total_empty q w.wheels (λ i s h k. ap (count q) (empty i s h k)));
      empty = empty;
      sound = v;
      stopped = a;
    },
  )
  | inr (x, found, f) ↦
      let n = fire_all_lem (take_entries x w).0 (take_entries x w).1 in
      let (w', r, t) =
        drain_lem fuel (emptied w x)
          (subst (λ u. WheelsSound u.elapsed u.wheels) (sym n.fired_since) (rest-Sound_now v f))
          (ap (λ u. u.is_shutdown) n.fired_since ∙ a)
          (omega (arith, marks-rest v f, ap (λ u. marks u.wheels) n.fired_since)) in
      (w', rw found r, since-Stopped w x w' v f t)
]

-- From a wheel in order, `Wheels::shutdown` ends within its fuel and without a failed assertion. It
-- fires every entry that the wheel holds, as often as it is there and no other, with the error of
-- the shutdown, and leaves the time as it is and the wheel empty, in order and shut down.
pub shutdown-Stopped :
    (w : Wheels)
    → WheelsSound w.elapsed w.wheels
    → (w' : Wheels) × (shutdown w ≡ done w') × Stopped w w'
unfolding shutdown
shutdown-Stopped w v =
    let (w', r, t) =
      drain_lem rounds (record w { is_shutdown = true }) v refl
        (omega (arith, marks_le w.wheels)) in
    (
      w',
      r,
      record {
        elapsed = t.elapsed;
        firings = t.firings;
        fired_since = t.fired_since;
        told = t.told;
        all = t.all;
        empty = t.empty;
        sound = t.sound;
        stopped = t.stopped;
      },
    )
