-- ===== src/Timer/Wheels/Sound.antt =====
-- The wheel of norn-timer/src/wheels.rs in good order: every entry in its place, every bit right.
use native.Mathlib.Nat.{
  div-div-eq-div-mul, pow-suc, mul_comm, one-le-pow, mul-le-mul_right, mod-lt, div-add-mod,
  div-mul-le_self,
}
use native.Mathlib.Decide.{ℕ_discrete, dec_lt}
use faser.Prelude.{
  ℕ, zero, suc, ◌+◌, ◌*◌, ◌/◌, ◌%◌, ◌^◌, ◌≤◌, ◌<◌, ◌≡◌, ◌≢◌, ◌⊎◌, inl, inr, refl, sym, ◌∙◌, ap,
  subst, none, some, [], done, arith, All, All-map, All-map₂,
}
use faser.Timer.Ticks.{num_levels, slot_range, level_range}
use faser.Timer.Ticks.Placement.{slot_start}
use faser.Timer.Ticks.Deadlines.{slot_for_lem}
use faser.Timer.Level.{Entry, Expiration, Level}
use faser.Timer.Level.Next.{Lies, Sound, IsNext, next_expiration_lem}
use faser.Timer.Wheels.{Wheels, next_from, next_expiration}
use faser.Timer.Wheels
use faser.Timer.Level

abbrev pub WheelsSound : ℕ → (ℕ → Level) → Type 0
WheelsSound elapsed ws = (i : ℕ) → i < num_levels → Sound elapsed i (ws i)

-- The levels below hold nothing.
abbrev pub EmptyBelow : ℕ → (ℕ → Level) → Type 0
EmptyBelow level ws = (i s : ℕ) → i < level → s < 64 → (ws i).slots s ≡ []

-- `x` comes next in the whole wheel.
pub record IsFirst (elapsed : ℕ) (ws : ℕ → Level) (x : Expiration) : Type 0 where
  pub exists : x.level < num_levels
  pub next : IsNext elapsed x.level (ws x.level) x
  pub below : EmptyBelow x.level ws

IsFirst-IsNext :
    (elapsed level : ℕ) (ws : ℕ → Level) (x : Expiration)
    → level < num_levels
    → IsNext elapsed level (ws level) x
    → EmptyBelow level ws
    → IsFirst elapsed ws x
IsFirst-IsNext elapsed level ws x e m b =
    let (e', m', b') =
      subst (λ i. (i < num_levels) × IsNext elapsed i (ws i) x × EmptyBelow i ws) (sym m.here)
        (e, m, b) in
    record { exists = e'; next = m'; below = b' }

next_from_lem :
    (n level : ℕ) (w : Wheels)
    → level + n ≡ num_levels
    → WheelsSound w.elapsed w.wheels
    → EmptyBelow level w.wheels
    → ((next_from n level w ≡ done none) × EmptyBelow num_levels w.wheels)
      ⊎ ((x : Expiration) × (next_from n level w ≡ done (some x)) × IsFirst w.elapsed w.wheels x)
unfolding next_from
next_from_lem zero level w e v b = inl (refl, λ i s h k. b i s (omega arith) k)
next_from_lem (suc n) level w e v b =
    elim (next_expiration_lem (v level (omega arith)) (omega arith)) [
      | inl (stop, none_here) ↦ rw stop (
          next_from_lem n (suc level) w (omega arith) v (λ i s h k. elim (ℕ_discrete i level) [
            | yes p ↦ rw p (none_here s k)
            | no p ↦ b i s (omega arith) k
          ]))
      | inr (x, found, m) ↦
          inr (x, rw found refl, IsFirst-IsNext w.elapsed level w.wheels x (omega arith) m b)
    ]

-- On a wheel in order, `Wheels::next_expiration` ends without a failed assertion; it returns
-- nothing only if the wheel is empty, and otherwise an occupied slot, in the lowest level that
-- holds anything, that begins after the present tick and before which no slot of that level with
-- an entry begins.
pub next_expiration-IsFirst :
    (w : Wheels)
    → WheelsSound w.elapsed w.wheels
    → ((next_expiration w ≡ done none) × EmptyBelow num_levels w.wheels)
      ⊎ ((x : Expiration) × (next_expiration w ≡ done (some x)) × IsFirst w.elapsed w.wheels x)
unfolding next_expiration
next_expiration-IsFirst w v = next_from_lem num_levels 0 w (omega arith) v (λ i s h k. elim h [ ])

-- From the first bit in which two ticks agree, they agree.
agree_above :
    (low high a b : ℕ)
    → low < high
    → a / level_range low ≡ b / level_range low
    → a / slot_range high ≡ b / slot_range high
agree_above low zero a b h e = elim h [ ]
agree_above low (suc high) a b h e = elim (ℕ_discrete low high) [
  | yes p ↦ rw (← p, pow-suc 64 low, mul_comm (64 ^ low) 64) e
  | no p ↦ rw (pow-suc 64 high) (
      sym (div-div-eq-div-mul a (64 ^ high) 64)
      ∙ ap (λ (n : ℕ). n / 64) (agree_above low high a b (omega arith) e)
      ∙ div-div-eq-div-mul b (64 ^ high) 64)
]

pub lt_start : (a b r : ℕ) → 0 < r → a / r < b / r → a < b / r * r
lt_start a b r h k = omega (arith, div-add-mod a r, mod-lt a h, mul-le-mul_right r k)

-- No entry is due before the first expiration, and those of other slots are due after it.
module _ {elapsed : ℕ} {ws : ℕ → Level} {x : Expiration} (v : WheelsSound elapsed ws)
    (f : IsFirst elapsed ws x) where
  higher-after :
      (i s : ℕ) (y : Entry)
      → x.level < i
      → Lies elapsed i s y
      → x.deadline < slot_start i y.deadline
  higher-after i s y h k =
      let same =
        agree_above x.level i elapsed x.deadline h
          (f.next.agree (omega (arith, k.placed.exists))) in
      lt_start x.deadline y.deadline (slot_range i) (one-le-pow i 64 (omega arith))
        (rw (← same) k.placed.ahead)

  same-after :
      (s : ℕ) (y : Entry)
      → s ≢ x.slot
      → x.deadline ≤ slot_start x.level y.deadline
      → Lies elapsed x.level s y
      → x.deadline < slot_start x.level y.deadline
  same-after s y h k m =
      let r = slot_range x.level in
      let apart : x.deadline / r ≢ y.deadline / r = (λ e. h (
        sym m.slot
        ∙ slot_for_lem x.level y.deadline f.exists
        ∙ ap (λ (n : ℕ). n % 64) (sym e)
        ∙ sym f.next.begins)) in
      elim (dec_lt (x.deadline / r) (y.deadline / r)) [
        | yes p ↦ lt_start x.deadline y.deadline r (one-le-pow x.level 64 (omega arith)) p
        | no p ↦ absurd (
            omega (
              arith,
              lt_start y.deadline x.deadline r (one-le-pow x.level 64 (omega arith)) (omega arith),
              div-mul-le_self x.deadline r,
              div-mul-le_self y.deadline r,
            ))
      ]

  -- Behind the first expiration: every entry of another slot.
  pub others-after :
      (i s : ℕ)
      → i < num_levels
      → s < 64
      → (i ≢ x.level) ⊎ (s ≢ x.slot)
      → All (λ y. x.deadline < slot_start i y.deadline) ((ws i).slots s)
  others-after i s h k o = elim (ℕ_discrete i x.level) [
    | yes p ↦ same_level p
    | no p ↦ elim (dec_lt i x.level) [
      | yes q ↦ subst (All (λ y. x.deadline < slot_start i y.deadline)) (sym (f.below i s q k)) tt
      | no q ↦
          All-map (Lies elapsed i s) (λ y. x.deadline < slot_start i y.deadline)
            (λ y. higher-after i s y (omega arith)) ((ws i).slots s) ((v i h).lies s k)
    ]
  ]
    where
      slot_apart : i ≡ x.level → s ≢ x.slot
      slot_apart p = elim o [ inl n ↦ absurd (n p) | inr n ↦ n ]

      same_level : i ≡ x.level → All (λ y. x.deadline < slot_start i y.deadline) ((ws i).slots s)
      same_level p = rw p (
          All-map₂ (λ y. x.deadline ≤ slot_start x.level y.deadline) (Lies elapsed x.level s)
            (λ y. x.deadline < slot_start x.level y.deadline) (λ y. same-after s y (slot_apart p))
            ((ws x.level).slots s) (f.next.earliest s k) ((v x.level f.exists).lies s k))

  -- No slot begins before the first expiration.
  pub none-before :
      (i s : ℕ)
      → i < num_levels
      → s < 64
      → All (λ y. x.deadline ≤ slot_start i y.deadline) ((ws i).slots s)
  none-before i s h k = elim (ℕ_discrete i x.level) [
    | yes p ↦ rw p (f.next.earliest s k)
    | no p ↦
        All-map (λ y. x.deadline < slot_start i y.deadline)
          (λ y. x.deadline ≤ slot_start i y.deadline) (λ y m. omega arith) ((ws i).slots s)
          (others-after i s h k (inl p))
  ]

-- An empty wheel is in order.
pub new-Sound : WheelsSound (Wheels.new).elapsed (Wheels.new).wheels
unfolding Wheels.new Level.new
new-Sound i h = record { numbered = refl; lies = λ s k. tt; marked = λ s k. refl }
