-- ===== src/Timer/Wheels/Sweeping.antt =====
-- The loop of `Wheels::advance` (norn-timer/src/wheels.rs).
use faser.Prelude.{
  ℕ, zero, suc, ◌+◌, ◌/◌, ◌%◌, ◌≤◌, ◌<◌, ◌≡◌, ◌⊎◌, inl, inr, refl, sym, ◌∙◌, ap, subst, Option,
  none, some, [], done, arith, All, All-map, ltb, Bool-cases, ◌>>=◌,
}
use faser.Timer.Ticks.{num_levels, slot_range, level_range}
use faser.Timer.Ticks.Placement.{Placed-near}
use faser.Timer.Ticks.Deadlines.{slot_for_lem}
use faser.Timer.Level.{Entry, Expiration, Level, take_slot}
use faser.Timer.Level.Next.{Lies}
use faser.Timer.Wheels.{Wheels, Sweep, sweep, settle, set_elapsed, take_entries, next_expiration}
use faser.Timer.Wheels.Sums.{marks}
use faser.Timer.Wheels.Sound.{WheelsSound, EmptyBelow, IsFirst, next_expiration-IsFirst}
use faser.Timer.Wheels.Taking.{rest-Sound, total-rest, marks-rest}
use faser.Timer.Wheels.Settling.{Progress, Held, settle_lem}

-- What the search says of the wheel: it is empty, or its first expiration is still to come.
abbrev pub Upcoming : ℕ → ℕ → (ℕ → Level) → Option Expiration → Type 0
Upcoming now elapsed ws next =
    ((next ≡ none) × EmptyBelow num_levels ws)
    ⊎ ((x : Expiration) × (next ≡ some x) × (now < x.deadline) × IsFirst elapsed ws x)

pub record Swept (now : ℕ) (w : Wheels) (s : Sweep) (next : Option Expiration) : Type 0 where
  pub progress : Progress now w [] s
  pub sound : WheelsSound s.wheel.elapsed s.wheel.wheels
  pub elapsed : s.wheel.elapsed ≤ now
  pub upcoming : Upcoming now s.wheel.elapsed s.wheel.wheels next

-- In the lowest level a deadline is its slot.
exact_at_zero :
    (level elapsed slot deadline : ℕ) (e : Entry)
    → level ≡ 0
    → Lies elapsed level slot e
    → slot ≡ deadline / slot_range level % 64
    → (level < 5 → elapsed / level_range level ≡ deadline / level_range level)
    → e.deadline ≡ deadline
exact_at_zero zero elapsed slot deadline e z h b a = omega (
  arith,
  h.slot,
  slot_for_lem 0 e.deadline (omega arith),
  h.placed.agree (omega arith),
  a (omega arith),
)
exact_at_zero (suc n) elapsed slot deadline e z h b a = absurd (omega arith)

pub set_elapsed_lem :
    (when : ℕ) (w : Wheels)
    → w.elapsed ≤ when
    → set_elapsed when w ≡ done (record w { elapsed = when })
unfolding set_elapsed
set_elapsed_lem when w h = ground arith

module _ (now : ℕ) (w : Wheels) where
  -- The slot that is due is in hand.
  abbrev taken : Expiration → Sweep → Sweep
  taken x s = record s { wheel = (take_entries x s.wheel).1 }

  held :
      (x : Expiration) (s : Sweep)
      → s.wheel.elapsed ≤ now
      → x.deadline ≤ now
      → WheelsSound s.wheel.elapsed s.wheel.wheels
      → IsFirst s.wheel.elapsed s.wheel.wheels x
      → All (Held now x.level) (take_entries x s.wheel).0
  unfolding take_entries take_slot
  held x s e d v f =
      All-map (Lies s.wheel.elapsed x.level x.slot) (Held now x.level)
        (λ y h. record {
          higher = λ k z. absurd (
              omega (
                arith,
                exact_at_zero x.level s.wheel.elapsed x.slot x.deadline y z h f.next.begins
                    f.next.agree,
              ));
          fits = λ k. Placed-near x.level h.placed e;
        })
        ((s.wheel.wheels x.level).slots x.slot) ((v x.level f.exists).lies x.slot f.next.slot)

  in_hand :
      (x : Expiration) (s : Sweep)
      → WheelsSound s.wheel.elapsed s.wheel.wheels
      → IsFirst s.wheel.elapsed s.wheel.wheels x
      → Progress now w [] s
      → Progress now w (take_entries x s.wheel).0 (taken x s)
  unfolding take_entries take_slot
  in_hand x s v f p = record {
    firings = p.firings;
    fired_since = p.fired_since;
    counted = p.counted;
    due = p.due;
    fits = p.fits;
    alive = p.alive;
    kept = λ q. omega (arith, p.kept q, total-rest v f q);
  }

  abbrev moved : ℕ → Sweep → Sweep
  moved when s = record s { wheel = record (s.wheel) { elapsed = when } }

  round :
      (x : Expiration) (s : Sweep)
      → s.wheel.elapsed ≤ now
      → x.deadline ≤ now
      → WheelsSound s.wheel.elapsed s.wheel.wheels
      → IsFirst s.wheel.elapsed s.wheel.wheels x
      → Progress now w [] s
      → (s' : Sweep) × (settle now x (take_entries x s.wheel).0 (taken x s) ≡ done s')
        × (set_elapsed x.deadline s'.wheel ≡ done (moved x.deadline s').wheel)
        × Progress now w [] (moved x.deadline s')
        × WheelsSound x.deadline s'.wheel.wheels
        × (marks s.wheel.wheels ≡ 1 + marks s'.wheel.wheels)
  unfolding take_entries
  round x s e d v f p =
      let (s', r, p', m) =
        settle_lem now w x (take_entries x s.wheel).0 (taken x s) (held x s e d v f)
          (in_hand x s v f p) in
      (
        s',
        r,
        set_elapsed_lem x.deadline s'.wheel (omega (arith, m.elapsed, f.next.ahead)),
        record {
          firings = p'.firings;
          fired_since = p'.fired_since;
          counted = p'.counted;
          due = p'.due;
          fits = p'.fits;
          alive = p'.alive;
          kept = p'.kept;
        },
        subst (WheelsSound x.deadline) (sym m.wheels) (rest-Sound v f),
        marks-rest v f ∙ ap (λ ws. 1 + marks ws) (sym m.wheels),
      )

  -- The loop ends, since each round empties a marked slot; what it leaves is in order.
  pub sweep_lem :
      (fuel : ℕ) (s : Sweep)
      → WheelsSound s.wheel.elapsed s.wheel.wheels
      → s.wheel.elapsed ≤ now
      → marks s.wheel.wheels < fuel
      → Progress now w [] s
      → (s' : Sweep) × (next : Option Expiration) × ((next_expiration s.wheel >>= λ o.
            sweep fuel now o s)
          ≡ done (s', next))
        × Swept now w s' next
  unfolding sweep
  sweep_lem zero s v e m p = elim m [ ]
  sweep_lem (suc fuel) s v e m p = elim (next_expiration-IsFirst s.wheel v) [
    | inl (stop, empty) ↦ (
      s,
      none,
      rw stop refl,
      record { progress = p; sound = v; elapsed = e; upcoming = inl (refl, empty) },
    )
    | inr (x, found, f) ↦ elim (Bool-cases (ltb now x.deadline)) [
      | inl later ↦ (
        s,
        some x,
        rw (found, later) refl,
        record { progress = p; sound = v; elapsed = e; upcoming = inr (x, refl, ground arith, f) },
      )
      | inr due ↦
          let (s₁, a, b, p₁, v₁, m₁) = round x s e (ground arith) v f p in
          let (s', next, r, t) =
            sweep_lem fuel (moved x.deadline s₁) v₁ (ground arith) (omega arith) p₁ in
          (s', next, rw (found, due, a, b) r, t)
    ]
  ]
