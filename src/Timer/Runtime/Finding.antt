-- ===== src/Timer/Runtime/Finding.antt =====
-- An entry that is counted in a wheel of norn-timer is linked in the slot where the code looks for it.
use native.Mathlib.Decide.{dec_lt}
use faser.Prelude.{
  ℕ, zero, suc, ◌<◌, ◌≤◌, ◌≡◌, inl, inr, Bool, not, ◌&&◌, ◌==◌, List, [], ◌∷◌, All, arith,
  Bool-cases, subst,
}
use faser.Timer.Ticks.{num_levels, slot_for}
use faser.Timer.Ticks.Placement.{Placed}
use faser.Timer.Level.{Entry, Level}
use faser.Timer.Level.Next.{Lies}
use faser.Timer.Wheels.Sums.{count, sum_to, total, level_count}
use faser.Timer.Wheels.Sound.{WheelsSound}
use faser.Timer.Wheels.Removing.{Linked}
use faser.Timer.Runtime.Delivery.{of_id}

-- The entries of a sleep with another deadline.
abbrev pub stale : ℕ → ℕ → Entry → Bool
stale i d e = (e.id == i) && not (e.deadline == d)

part-le-sum_to : (n k : ℕ) (f : ℕ → ℕ) → k < n → f k ≤ sum_to n f
unfolding sum_to
part-le-sum_to zero k f h = elim h [ ]
part-le-sum_to (suc n) k f h = elim (dec_lt k n) [
  | yes p ↦ omega (arith, part-le-sum_to n k f p)
  | no p ↦ let e : k ≡ n = omega arith in rw e (omega arith)
]

-- A sum is not zero only if a part is not.
some_part : (n : ℕ) (f : ℕ → ℕ) → 0 < sum_to n f → (k : ℕ) × (k < n) × (0 < f k)
unfolding sum_to
some_part zero f h = absurd (omega arith)
some_part (suc n) f h = elim (dec_lt 0 (f n)) [
  | yes p ↦ (n, omega arith, p)
  | no p ↦ let (k, l, m) = some_part n f (omega arith) in (k, omega arith, m)
]

Linked-counted :
    (i d : ℕ) (xs : List Entry)
    → 0 < count (of_id i) xs
    → count (stale i d) xs ≡ 0
    → Linked (record { id = i; deadline = d }) xs
Linked-counted i d [] h k = absurd (omega arith)
Linked-counted i d (x ∷ xs) h k = elim (Bool-cases (x.id == i)) [
  | inl b ↦ inl (ground arith)
  | inr b ↦ inr (ground arith, Linked-counted i d xs (ground arith) (ground arith))
]

Placed-Linked :
    (now level s : ℕ) (e : Entry) (xs : List Entry)
    → All (Lies now level s) xs
    → Linked e xs
    → Lies now level s e
Placed-Linked now level s e [] a h = elim h [ ]
Placed-Linked now level s e (x ∷ xs) a (inl h) = subst (Lies now level s) h a.0
Placed-Linked now level s e (x ∷ xs) a (inr h) = Placed-Linked now level s e xs a.1 h.1

-- A sleep that has an entry in a wheel in order, and no entry with another deadline, is linked at the
-- level and in the slot of its deadline.
pub entry-found :
    (now i d : ℕ) (ws : ℕ → Level)
    → WheelsSound now ws
    → 0 < total (of_id i) ws
    → total (stale i d) ws ≡ 0
    → (level : ℕ) × Placed now d level
      × Linked (record { id = i; deadline = d }) ((ws level).slots (slot_for d level))
entry-found now i d ws v h z =
    let (level, a, p) = some_part num_levels (λ j. level_count (of_id i) (ws j)) h in
    let (s, b, q) = some_part 64 (λ s. count (of_id i) ((ws level).slots s)) p in
    let none_stale : count (stale i d) ((ws level).slots s) ≡ 0 = omega (
      arith,
      part-le-sum_to num_levels level (λ j. level_count (stale i d) (ws j)) a,
      part-le-sum_to 64 s (λ r. count (stale i d) ((ws level).slots r)) b,
    ) in
    let linked = Linked-counted i d ((ws level).slots s) q none_stale in
    let here = Placed-Linked now level s _ ((ws level).slots s) ((v level a).lies s b) linked in
    (level, here.placed, rw here.slot linked)
