-- ===== src/Timer/Ticks/Placement.antt =====
-- Where norn-timer/src/wheels.rs puts a deadline, and what becomes of that place as time goes on.
use faser.Prelude.{ℕ, zero, suc, ◌+◌, ◌-◌, ◌*◌, ◌/◌, ◌^◌, ◌≤◌, ◌<◌, ◌≡◌, sym, subst, arith}
use Prim.Native.Nat.{bit_xor}
use native.Mathlib.Decide.{ℕ_discrete}
use native.Mathlib.Nat.{pow-succ', one-le-pow}
use faser.Timer.Ticks.{
  num_levels, slot_range, level_range, bit_width, leading_zeros, masked, wheel_for,
}
use faser.Timer.Ticks.Xor.{xor_agree, xor_differ, or_mask}

-- At tick `now`, a deadline belongs to the level in which its slot is still to come within this
-- turn, and to the lowest such: above that level the deadline and the tick agree. At the highest
-- level the turn is taken from the present slot.
pub record Placed (now deadline level : ℕ) : Type 0 where
  pub exists : level < num_levels
  pub ahead : now / slot_range level < deadline / slot_range level
  pub near : deadline / slot_range level < now / slot_range level + 64
  pub agree : level < 5 → now / level_range level ≡ deadline / level_range level

-- When the slot of a deadline begins.
abbrev pub slot_start : ℕ → ℕ → ℕ
slot_start level deadline = deadline / slot_range level * slot_range level

-- A place is good until its slot begins.
pub Placed-later :
    (level : ℕ) {now later deadline : ℕ}
    → Placed now deadline level
    → now ≤ later
    → later < slot_start level deadline
    → Placed later deadline level
Placed-later zero p h k = omega (arith, p.agree (omega arith))
Placed-later (suc zero) p h k = omega (arith, p.agree (omega arith))
Placed-later (suc (suc zero)) p h k = omega (arith, p.agree (omega arith))
Placed-later (suc (suc (suc zero))) p h k = omega (arith, p.agree (omega arith))
Placed-later (suc (suc (suc (suc zero)))) p h k = omega (arith, p.agree (omega arith))
Placed-later (suc (suc (suc (suc (suc zero))))) p h k = omega arith
Placed-later (suc (suc (suc (suc (suc (suc n)))))) p h k = absurd (omega arith)

-- A deadline ahead has a place, if it is less than a turn of the highest level away.
pub somewhere-Placed :
    (now deadline : ℕ)
    → now < deadline
    → deadline / 2 ^ 30 < now / 2 ^ 30 + 64
    → (level : ℕ) × Placed now deadline level
somewhere-Placed now deadline h k = elim (ℕ_discrete (now / 64) (deadline / 64)) [
  | yes e ↦ (0, omega arith)
  | no n₁ ↦ elim (ℕ_discrete (now / 64 ^ 2) (deadline / 64 ^ 2)) [
    | yes e ↦ (1, omega arith)
    | no n₂ ↦ elim (ℕ_discrete (now / 64 ^ 3) (deadline / 64 ^ 3)) [
      | yes e ↦ (2, omega arith)
      | no n₃ ↦ elim (ℕ_discrete (now / 64 ^ 4) (deadline / 64 ^ 4)) [
        | yes e ↦ (3, omega arith)
        | no n₄ ↦ elim (ℕ_discrete (now / 64 ^ 5) (deadline / 64 ^ 5)) [
          | yes e ↦ (4, omega arith)
          | no n₅ ↦ (5, omega arith)
        ]
      ]
    ]
  ]
]

bit_width_le : (fuel k n : ℕ) → n < 2 ^ k → bit_width fuel n ≤ k
unfolding bit_width
bit_width_le zero k n h = omega arith
bit_width_le (suc fuel) zero n h = ground arith
bit_width_le (suc fuel) (suc k) n h =
    ground (arith, pow-succ' 2 k, bit_width_le fuel k (n / 2) (omega (arith, pow-succ' 2 k)))

bit_width_ge : (fuel k n : ℕ) → 2 ^ k ≤ n → k < fuel → k < bit_width fuel n
unfolding bit_width
bit_width_ge zero k n h f = absurd (omega arith)
bit_width_ge (suc fuel) zero n h f = ground arith
bit_width_ge (suc fuel) (suc k) n h f = ground (
  arith,
  pow-succ' 2 k,
  one-le-pow k 2,
  bit_width_ge fuel k (n / 2) (omega (arith, pow-succ' 2 k)) (omega arith),
)

significant_level :
    (level m : ℕ)
    → level < num_levels
    → 64 ^ level ≤ m
    → m < 64 ^ suc level
    → (63 - leading_zeros m) / num_levels ≡ level
unfolding leading_zeros
significant_level zero m e h k =
    omega (arith, bit_width_le 64 6 m k, bit_width_ge 64 0 m h (omega arith))
significant_level (suc zero) m e h k =
    omega (arith, bit_width_le 64 12 m k, bit_width_ge 64 6 m h (omega arith))
significant_level (suc (suc zero)) m e h k =
    omega (arith, bit_width_le 64 18 m k, bit_width_ge 64 12 m h (omega arith))
significant_level (suc (suc (suc zero))) m e h k =
    omega (arith, bit_width_le 64 24 m k, bit_width_ge 64 18 m h (omega arith))
significant_level (suc (suc (suc (suc zero)))) m e h k =
    omega (arith, bit_width_le 64 30 m k, bit_width_ge 64 24 m h (omega arith))
significant_level (suc (suc (suc (suc (suc zero))))) m e h k =
    omega (arith, bit_width_le 64 36 m k, bit_width_ge 64 30 m h (omega arith))
significant_level (suc (suc (suc (suc (suc (suc n)))))) m e h k = absurd (omega arith)

-- Above the lowest level a place is where the ticks first differ.
masked_range :
    (level : ℕ) {now deadline : ℕ}
    → Placed now deadline level
    → (64 ^ level ≤ masked now deadline) × (masked now deadline < 64 ^ suc level)
unfolding masked
masked_range zero {now} {deadline} p =
    ground (arith, or_mask (bit_xor now deadline), xor_agree 6 now deadline (p.agree (omega arith)))
masked_range (suc zero) {now} {deadline} p = ground (
  arith,
  or_mask (bit_xor now deadline),
  xor_agree 12 now deadline (p.agree (omega arith)),
  xor_differ 6 now deadline p.ahead,
)
masked_range (suc (suc zero)) {now} {deadline} p = ground (
  arith,
  or_mask (bit_xor now deadline),
  xor_agree 18 now deadline (p.agree (omega arith)),
  xor_differ 12 now deadline p.ahead,
)
masked_range (suc (suc (suc zero))) {now} {deadline} p = ground (
  arith,
  or_mask (bit_xor now deadline),
  xor_agree 24 now deadline (p.agree (omega arith)),
  xor_differ 18 now deadline p.ahead,
)
masked_range (suc (suc (suc (suc zero)))) {now} {deadline} p = ground (
  arith,
  or_mask (bit_xor now deadline),
  xor_agree 30 now deadline (p.agree (omega arith)),
  xor_differ 24 now deadline p.ahead,
)
masked_range (suc (suc (suc (suc (suc zero))))) {now} {deadline} p =
    ground (arith, or_mask (bit_xor now deadline), xor_differ 30 now deadline p.ahead)
masked_range (suc (suc (suc (suc (suc (suc n)))))) p = absurd (omega (arith, p.exists))

-- The code puts a deadline where its place is.
pub wheel_for-Placed :
    (level now deadline : ℕ) → Placed now deadline level → wheel_for now deadline ≡ level
unfolding wheel_for
wheel_for-Placed level now deadline p =
    let (low, high) = masked_range level p in
    significant_level level (masked now deadline) p.exists low high

-- A deadline after the present tick and, counted in slots of the highest level, less than 64 slots
-- ahead, belongs to the level that `wheel_for` computes from the bits: its slot there is still to
-- come within this turn, and above that level the deadline and the tick agree.
pub Placed-wheel_for :
    (now deadline : ℕ)
    → now < deadline
    → deadline / 2 ^ 30 < now / 2 ^ 30 + 64
    → Placed now deadline (wheel_for now deadline)
Placed-wheel_for now deadline h k =
    let (level, p) = somewhere-Placed now deadline h k in
    subst (Placed now deadline) (sym (wheel_for-Placed level now deadline p)) p

-- A place is less than a turn of the highest level away, now and later.
pub Placed-near :
    (level : ℕ) {now later deadline : ℕ}
    → Placed now deadline level
    → now ≤ later
    → deadline / 2 ^ 30 < later / 2 ^ 30 + 64
Placed-near zero p h = omega (arith, p.agree (omega arith))
Placed-near (suc zero) p h = omega (arith, p.agree (omega arith))
Placed-near (suc (suc zero)) p h = omega (arith, p.agree (omega arith))
Placed-near (suc (suc (suc zero))) p h = omega (arith, p.agree (omega arith))
Placed-near (suc (suc (suc (suc zero)))) p h = omega (arith, p.agree (omega arith))
Placed-near (suc (suc (suc (suc (suc zero))))) p h = omega (arith)
Placed-near (suc (suc (suc (suc (suc (suc n)))))) p h = absurd (omega (arith, p.exists))
