-- ===== src/Timer/Wheels/Removing.antt =====
-- `Wheels::remove` of norn-timer/src/wheels.rs, which a dropped `Sleep` calls.
use native.Mathlib.Decide.{ℕ_discrete}
use faser.Prelude.{
  ℕ, ◌+◌, ◌<◌, ◌≡◌, ◌≢◌, ◌⊎◌, inl, inr, refl, sym, ◌∙◌, ap, subst, Bool, true, false, not, List, [],
  ◌∷◌, done, arith, count_if, All, ◌==◌, Bool-cases,
}
use faser.Timer.Bits.{Bits, update, update_self, update_other}
use faser.Timer.Ticks.{num_levels, slot_for}
use faser.Timer.Ticks.Placement.{Placed, wheel_for-Placed}
use faser.Timer.Level.{Entry, Level, remove_entry, unlink, is_empty}
use faser.Timer.Level.Next.{Lies, Sound}
use faser.Timer.Wheels.{Wheels, remove}
use faser.Timer.Wheels.Sums.{count, total, level_count, sum_to-update}
use faser.Timer.Wheels.Sound.{WheelsSound}
use faser.Timer.Wheels.Taking.{update-Sound}

-- The entry is in the list, and no other before it has its pointer.
abbrev pub Linked : Entry → List Entry → Type 0
Linked e [] = ⊥
Linked e (x ∷ xs) = (x ≡ e) ⊎ ((x.id ≢ e.id) × Linked e xs)

unlink-All : (P : Entry → Type 0) (id : ℕ) (xs : List Entry) → All P xs → All P (unlink id xs)
unfolding unlink
unlink-All P id [] h = tt
unlink-All P id (x ∷ xs) h = elim (Bool-cases (x.id == id)) [
  | inl b ↦ rw b h.1
  | inr b ↦ rw b (h.0, unlink-All P id xs h.1)
]

count-unlink :
    (q : Entry → Bool) (e : Entry) (xs : List Entry)
    → Linked e xs
    → count q xs ≡ count_if (q e) + count q (unlink e.id xs)
unfolding unlink
count-unlink q e [] h = elim h [ ]
count-unlink q e (x ∷ xs) (inl h) = ground (arith, ap q h, ap (λ (y : Entry). y.id) h)
count-unlink q e (x ∷ xs) (inr h) = ground (arith, count-unlink q e xs h.1)

Linked-marked : (e : Entry) (xs : List Entry) → Linked e xs → is_empty xs ≡ false
Linked-marked e [] h = elim h [ ]
Linked-marked e (x ∷ xs) h = refl

module _ (now level : ℕ) (l : Level) (e : Entry) (v : Sound now level l) where
  abbrev slot : ℕ
  slot = slot_for e.deadline l.level

  abbrev left : List Entry
  left = unlink e.id (l.slots slot)

  abbrev removed : Bits → Level
  removed bits = record l { slots = update l.slots slot left; bitfield = bits }

  removed-Sound :
      (bits : Bits)
      → bits slot ≡ not (is_empty left)
      → ((s : ℕ) → s ≢ slot → bits s ≡ l.bitfield s)
      → Sound now level (removed bits)
  removed-Sound bits h o = record { numbered = v.numbered; lies = lies; marked = marked }
    where
      lies : (s : ℕ) → s < 64 → All (Lies now level s) (update l.slots slot left s)
      lies s k = elim (ℕ_discrete s slot) [
        | yes q ↦
            rw (q, update_self l.slots slot left)
              (unlink-All (Lies now level slot) e.id (l.slots slot) (v.lies slot (omega arith)))
        | no q ↦ rw (update_other l.slots slot left s q) (v.lies s k)
      ]

      marked : (s : ℕ) → s < 64 → bits s ≡ not (is_empty (update l.slots slot left s))
      marked s k = elim (ℕ_discrete s slot) [
        | yes q ↦ rw (q, update_self l.slots slot left) h
        | no q ↦ rw (update_other l.slots slot left s q) (o s q ∙ v.marked s k)
      ]

  removed-count :
      (bits : Bits)
      → Linked e (l.slots slot)
      → (q : Entry → Bool) → level_count q l ≡ count_if (q e) + level_count q (removed bits)
  removed-count bits h q = omega (
    arith,
    sum_to-update (count q) 64 slot l.slots left (omega arith),
    count-unlink q e (l.slots slot) h,
  )

  was_marked : Linked e (l.slots slot) → l.bitfield slot ≡ true
  was_marked h = v.marked slot (omega arith) ∙ ap not (Linked-marked e (l.slots slot) h)

  -- The bit is turned off with the last entry, and found set before.
  remove_entry_lem :
      Linked e (l.slots slot)
      → (l' : Level) × (remove_entry l e ≡ done l')
        × Sound now level l'
        × ((q : Entry → Bool) → level_count q l ≡ count_if (q e) + level_count q l')
  unfolding remove_entry
  remove_entry_lem h = elim (Bool-cases (is_empty left)) [
    | inl b ↦
        let off = update l.bitfield slot (not (l.bitfield slot)) in
        (
          removed off,
          rw (b, was_marked h) refl,
          removed-Sound off
              (update_self l.bitfield slot (not (l.bitfield slot)) ∙ ap not (was_marked h ∙ sym b))
              (λ s q. update_other l.bitfield slot (not (l.bitfield slot)) s q),
          removed-count off h,
        )
    | inr b ↦ (
      removed l.bitfield,
      rw b refl,
      removed-Sound l.bitfield (was_marked h ∙ ap not (sym b)) (λ s q. refl),
      removed-count l.bitfield h,
    )
  ]

-- The wheel has lost the entry, and nothing else has changed.
pub record Removed (e : Entry) (w w' : Wheels) : Type 0 where
  pub elapsed : w'.elapsed ≡ w.elapsed
  pub alive : w'.is_shutdown ≡ w.is_shutdown
  pub firings : w'.firings ≡ w.firings
  pub sound : WheelsSound w'.elapsed w'.wheels
  pub gone : (q : Entry → Bool) → total q w.wheels ≡ count_if (q e) + total q w'.wheels

-- `Wheels::remove` of an entry that is linked in its slot, on a wheel in order, finds it at the
-- level that `wheel_for` computes now, with no failed assertion; it takes out that entry once and
-- no other, clears the bit of the slot exactly with the last entry, fires nothing, and leaves the
-- time as it is and the wheel in order.
pub remove-Removed :
    (e : Entry) (level : ℕ) (w : Wheels)
    → WheelsSound w.elapsed w.wheels
    → Placed w.elapsed e.deadline level
    → Linked e ((w.wheels level).slots (slot_for e.deadline level))
    → (w' : Wheels) × (remove e w ≡ done w') × Removed e w w'
unfolding remove
remove-Removed e level w v p h =
    let u = v level p.exists in
    let here = wheel_for-Placed level w.elapsed e.deadline p in
    let there =
      subst (λ i. Linked e ((w.wheels level).slots (slot_for e.deadline i))) (sym u.numbered) h in
    let (l', r, s, c) = remove_entry_lem w.elapsed level (w.wheels level) e u there in
    (
      record w { wheels = update w.wheels level l' },
      rw (here, r) refl,
      record {
        elapsed = refl;
        alive = refl;
        firings = refl;
        sound = update-Sound w.elapsed level w.wheels l' v s;
        gone = λ q.
            omega (arith, c q, sum_to-update (level_count q) num_levels level w.wheels l' p.exists);
      },
    )
