-- ===== src/Timer/Wheels/Taking.antt =====
-- Emptying the first slot that is due (`Wheels::take_entries`, norn-timer/src/wheels.rs).
use native.Mathlib.Decide.{ℕ_discrete}
use faser.Prelude.{
  ℕ, ◌+◌, ◌≤◌, ◌<◌, ◌≡◌, inl, inr, ap, Bool, false, not, List, [], arith, count_if, All, All-map₂,
}
use faser.Timer.Bits.{update, update_self, update_other}
use faser.Timer.Ticks.{num_levels}
use faser.Timer.Ticks.Placement.{Placed-later, slot_start}
use faser.Timer.Level.{Entry, Expiration, Level, take_slot, is_empty}
use faser.Timer.Level.Next.{Lies, Sound}
use faser.Timer.Wheels.Sums.{count, total, marks, level_count, level_marks, sum_to-update}
use faser.Timer.Wheels.Sound.{WheelsSound, IsFirst, others-after}

-- The level stays in order as time goes on to the next expiration, but for slots that have begun.
pub Lies-later :
    (level s : ℕ) {now later : ℕ} (xs : List Entry)
    → now ≤ later
    → All (λ y. later < slot_start level y.deadline) xs
    → All (Lies now level s) xs
    → All (Lies later level s) xs
Lies-later level s {now} {later} xs h =
    All-map₂ (λ y. later < slot_start level y.deadline) (Lies now level s) (Lies later level s)
      (λ y k m. record { placed = Placed-later level m.placed h k; slot = m.slot }) xs

-- One level replaced by another that is in order.
pub update-Sound :
    (elapsed i : ℕ) (ws : ℕ → Level) (l : Level)
    → WheelsSound elapsed ws
    → Sound elapsed i l
    → WheelsSound elapsed (update ws i l)
update-Sound elapsed i ws l v u j h = elim (ℕ_discrete j i) [
  | yes p ↦ rw (p, update_self ws i l) u
  | no p ↦ rw (update_other ws i l j p) (v j h)
]

module _ {elapsed : ℕ} {ws : ℕ → Level} {x : Expiration} (v : WheelsSound elapsed ws)
    (f : IsFirst elapsed ws x) where
  abbrev emptied : Level
  emptied = (take_slot (ws x.level) x.slot).1

  abbrev rest : ℕ → Level
  rest = update ws x.level emptied

  due_le : elapsed ≤ x.deadline
  due_le = omega (arith, f.next.ahead)

  emptied_slots : (s : ℕ) → s < 64 → All (Lies x.deadline x.level s) (emptied.slots s)
  unfolding take_slot
  emptied_slots s h = elim (ℕ_discrete s x.slot) [
    | yes p ↦ rw (p, update_self (ws x.level).slots x.slot []) tt
    | no p ↦ rw (update_other (ws x.level).slots x.slot [] s p) (
        Lies-later x.level s ((ws x.level).slots s) due_le
          (others-after v f x.level s f.exists h (inr p)) ((v x.level f.exists).lies s h))
  ]

  emptied_marks : (s : ℕ) → s < 64 → emptied.bitfield s ≡ not (is_empty (emptied.slots s))
  unfolding take_slot
  emptied_marks s h = elim (ℕ_discrete s x.slot) [
    | yes p ↦ rw (
      p,
      update_self (ws x.level).slots x.slot [],
      update_self (ws x.level).bitfield x.slot false,
    )
    | no p ↦
        rw
          (
            update_other (ws x.level).slots x.slot [] s p,
            update_other (ws x.level).bitfield x.slot false s p,
          )
          ((v x.level f.exists).marked s h)
  ]

  emptied-level : emptied.level ≡ x.level
  unfolding take_slot
  emptied-level = (v x.level f.exists).numbered

  -- What is left is in order at the tick of the expiration.
  pub rest-Sound : WheelsSound x.deadline rest
  rest-Sound i h = elim (ℕ_discrete i x.level) [
    | yes p ↦
        rw (p, update_self ws x.level emptied)
          (record { numbered = emptied-level; lies = emptied_slots; marked = emptied_marks })
    | no p ↦ rw (update_other ws x.level emptied i p) (record {
      numbered = (v i h).numbered;
      lies = λ s k.
          Lies-later i s ((ws i).slots s) due_le (others-after v f i s h k (inl p))
            ((v i h).lies s k);
      marked = (v i h).marked;
    })
  ]

  emptied_here : (s : ℕ) → s < 64 → All (Lies elapsed x.level s) (emptied.slots s)
  unfolding take_slot
  emptied_here s h = elim (ℕ_discrete s x.slot) [
    | yes p ↦ rw (p, update_self (ws x.level).slots x.slot []) tt
    | no p ↦ rw (update_other (ws x.level).slots x.slot [] s p) ((v x.level f.exists).lies s h)
  ]

  -- If the time stands still, what is left is in order at that time.
  pub rest-Sound_now : WheelsSound elapsed rest
  rest-Sound_now =
      update-Sound elapsed x.level ws emptied v
        (record { numbered = emptied-level; lies = emptied_here; marked = emptied_marks })

  pub total-rest :
      (q : Entry → Bool) → total q ws ≡ count q ((ws x.level).slots x.slot) + total q rest
  unfolding take_slot
  total-rest q = omega (
    arith,
    sum_to-update (level_count q) num_levels x.level ws emptied f.exists,
    sum_to-update (count q) 64 x.slot (ws x.level).slots [] f.next.slot,
  )

  pub marks-rest : marks ws ≡ 1 + marks rest
  unfolding take_slot
  marks-rest = omega (
    arith,
    sum_to-update level_marks num_levels x.level ws emptied f.exists,
    sum_to-update count_if 64 x.slot (ws x.level).bitfield false f.next.slot,
    ap count_if f.next.occupied,
  )
