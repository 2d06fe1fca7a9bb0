-- ===== src/Timer/Level/Next.antt =====
-- What `Level::next_expiration` of norn-timer/src/level.rs finds in a level whose entries are in
-- their places.
use native.Mathlib.Nat.{
  mod-lt, div-add-mod, mul-div_cancel, div-div-eq-div-mul, mul_comm, one-le-pow, mul-le-mul_right,
}
use faser.Prelude.{
  ℕ, ◌+◌, ◌-◌, ◌*◌, ◌/◌, ◌%◌, ◌≤◌, ◌<◌, ◌≡◌, ◌⊎◌, inl, inr, refl, sym, ◌∙◌, ap, subst, true, false,
  not, Bool-cases, none, some, List, [], ◌∷◌, done, arith, All, All-map,
}
use faser.Timer.Bits.{
  is_zero, rotate_right, trailing_zeros, trailing_zeros_lem, is_zero-true, is_zero-false,
}
use faser.Timer.Ticks.{num_levels, slot_range, level_range, slot_for}
use faser.Timer.Ticks.Placement.{Placed, slot_start}
use faser.Timer.Ticks.Deadlines.{slot_for_lem, slot_deadline_lem}
use faser.Timer.Level.{
  Entry, Expiration, Level, next_expiration, expiration_at, next_occupied_slot, is_empty,
  slot_deadline,
}

-- The entry stands in slot `s` of the level, and belongs there.
pub record Lies (now level s : ℕ) (e : Entry) : Type 0 where
  pub placed : Placed now e.deadline level
  pub slot : slot_for e.deadline level ≡ s

pub record Sound (now level : ℕ) (l : Level) : Type 0 where
  pub numbered : l.level ≡ level
  pub lies : (s : ℕ) → s < 64 → All (Lies now level s) (l.slots s)
  pub marked : (s : ℕ) → s < 64 → l.bitfield s ≡ not (is_empty (l.slots s))

-- The next expiration of a level: the beginning of an occupied slot, with no entry of the level due
-- before it.
pub record IsNext (now level : ℕ) (l : Level) (x : Expiration) : Type 0 where
  pub here : x.level ≡ level
  pub slot : x.slot < 64
  pub occupied : l.bitfield x.slot ≡ true
  pub ahead : now < x.deadline
  pub begins : x.slot ≡ x.deadline / slot_range level % 64
  pub agree : level < 5 → now / level_range level ≡ x.deadline / level_range level
  pub earliest : (s : ℕ) → s < 64 → All (λ e. x.deadline ≤ slot_start level e.deadline) (l.slots s)

range_pos : (level : ℕ) → 0 < slot_range level
range_pos level = one-le-pow level 64 (omega arith)

-- The number of the slot, counted from tick 0.
abbrev nth : ℕ → ℕ → ℕ
nth level n = n / slot_range level

occupant :
    (xs : List Entry) (P : Entry → Type 0) → is_empty xs ≡ false → All P xs → (x : Entry) × P x
occupant [] P h a = cc
occupant (x ∷ xs) P h a = (x, a.0)

-- How far ahead of the present slot an entry's slot is.
Lies-ahead :
    (now level s : ℕ) (x : Entry)
    → Lies now level s x
    → (z : ℕ) × (0 < z)
      × (z < 64)
      × (nth level x.deadline ≡ nth level now + z)
      × ((z + nth level now) % 64 ≡ s)
Lies-ahead now level s x h =
    let p = h.placed in
    let z = nth level x.deadline - nth level now in
    let e = slot_for_lem level x.deadline p.exists in
    (
      z,
      omega (arith, p.ahead),
      omega (arith, p.near),
      omega (arith, p.ahead),
      omega (arith, e, h.slot, p.ahead),
    )

lt_next : (n r : ℕ) → 0 < r → n < (n / r + 1) * r
lt_next n r h = omega (arith, div-add-mod n r, mod-lt n h)

div-level : (level n : ℕ) → n / level_range level ≡ nth level n / 64
div-level level n =
    rw (mul_comm 64 (slot_range level)) (sym (div-div-eq-div-mul n (slot_range level) 64))

same_gap : (a b q : ℕ) → a < 64 → b < 64 → (a + q) % 64 ≡ (b + q) % 64 → a ≡ b
same_gap a b q h k e = omega arith

pub empty_of : (xs : List Entry) → is_empty xs ≡ true → xs ≡ []
empty_of [] h = refl
empty_of (x ∷ xs) h = cc

module _ {now level : ℕ} {l : Level} (v : Sound now level l) (small : level < num_levels) where
  abbrev present : ℕ
  present = nth level now

  abbrev gap : ℕ
  gap = trailing_zeros (rotate_right l.bitfield present)

  unmarked : (s : ℕ) → s < 64 → l.bitfield s ≡ false → l.slots s ≡ []
  unmarked s h b = empty_of (l.slots s) (ground (arith, v.marked s h))

  -- Every entry is at least as far ahead as the first marked slot.
  gap_le :
      (s : ℕ) (y : Entry)
      → s < 64
      → l.bitfield s ≡ true
      → Lies now level s y
      → (l.bitfield ((gap + present) % 64) ≡ true) × (present + gap ≤ nth level y.deadline)
  gap_le s y h b k =
      let (z, p, q, e, f) = Lies-ahead now level s y k in
      let (t, u) = trailing_zeros_lem z (rotate_right l.bitfield present) q (rw f b) in
      (t, omega arith)

  entry_gap :
      (g : ℕ) (y : Entry)
      → g < 64
      → Lies now level ((g + present) % 64) y
      → (0 < g) × (nth level y.deadline ≡ present + g)
  entry_gap g y h k =
      let (z, p, q, e, f) = Lies-ahead now level ((g + present) % 64) y k in
      let d = same_gap g z present h q (sym f) in (omega arith, omega arith)

  at_gap :
      (g : ℕ)
      → g < 64
      → l.bitfield ((g + present) % 64) ≡ true
      → (y : Entry) × (0 < g) × (nth level y.deadline ≡ present + g) × Placed now y.deadline level
  at_gap g h b =
      let s = (g + present) % 64 in
      let (y, k) =
        occupant (l.slots s) (Lies now level s) (ground (arith, v.marked s (omega arith)))
          (v.lies s (omega arith)) in
      let (p, e) = entry_gap g y h k in (y, p, e, k.placed)

  -- The slot that the code finds, with an entry in it.
  first :
      is_zero l.bitfield ≡ false
      → (y : Entry) × (l.bitfield ((gap + present) % 64) ≡ true)
        × (0 < gap)
        × (gap < 64)
        × (nth level y.deadline ≡ present + gap)
        × Placed now y.deadline level
  first o =
      let (j, h, b) = is_zero-false l.bitfield o in
      let (y, k) =
        occupant (l.slots j) (Lies now level j) (ground (arith, v.marked j h)) (v.lies j h) in
      let (z, p, q, e, f) = Lies-ahead now level j y k in
      let (t, u) = trailing_zeros_lem z (rotate_right l.bitfield present) q (rw f b) in
      let (y₁, r, e₁, m) = at_gap gap (omega arith) t in (y₁, t, r, omega arith, e₁, m)

  abbrev due : ℕ
  due = (present + gap) * slot_range level

  -- The entry of `first` carries over what is known of its deadline to that of its slot.
  due-nth : nth level due ≡ present + gap
  due-nth = mul-div_cancel (present + gap) (range_pos level)

  due-agree :
      (y : Entry)
      → nth level y.deadline ≡ present + gap
      → Placed now y.deadline level
      → level < 5
      → (present + gap) / 64 ≡ now / level_range level
  due-agree y e p h = rw (← e) (sym (p.agree h ∙ div-level level y.deadline))

  due-later : 0 < gap → now < due
  due-later p = omega (
    arith,
    lt_next now (slot_range level) (range_pos level),
    mul-le-mul_right (slot_range level) (let h : present + 1 ≤ present + gap = omega arith in h),
  )

  expiration : Expiration
  expiration = record { level = l.level; slot = (gap + present) % 64; deadline = due }

  found :
      is_zero l.bitfield ≡ false
      → slot_deadline level now ((gap + present) % 64) ≡ done due
      → now < due
      → next_expiration l now ≡ done (some expiration)
  unfolding next_expiration expiration_at next_occupied_slot expiration
  found o e h = ground (arith, v.numbered)

  expiration-IsNext : is_zero l.bitfield ≡ false → IsNext now level l expiration
  unfolding expiration
  expiration-IsNext o =
      let (y, t, p, q, e, m) = first o in
      record {
        here = v.numbered;
        slot = omega arith;
        occupied = t;
        ahead = due-later p;
        begins = rw due-nth (omega arith);
        agree = λ h.
            sym (due-agree y e m h) ∙ sym (div-level level due ∙ ap (λ (n : ℕ). n / 64) due-nth);
        earliest = λ s h. earliest s h;
      }
    where
      earliest : (s : ℕ) → s < 64 → All (λ e. due ≤ slot_start level e.deadline) (l.slots s)
      earliest s h = elim (Bool-cases (l.bitfield s)) [
        | inl b ↦
            All-map (Lies now level s) (λ e. due ≤ slot_start level e.deadline)
              (λ y k. mul-le-mul_right (slot_range level) (gap_le s y h b k).1) (l.slots s)
              (v.lies s h)
        | inr b ↦ subst (All (λ e. due ≤ slot_start level e.deadline)) (sym (unmarked s h b)) tt
      ]

  -- On a level whose entries stand in their places, the rotation and the count of trailing zeros
  -- find the next occupied slot and its beginning, with no failed assertion, and find none exactly
  -- if the level is empty.
  pub next_expiration_lem :
      ((next_expiration l now ≡ done none) × ((s : ℕ) → s < 64 → l.slots s ≡ []))
      ⊎ ((x : Expiration) × (next_expiration l now ≡ done (some x)) × IsNext now level l x)
  unfolding next_expiration expiration_at next_occupied_slot
  next_expiration_lem = elim (Bool-cases (is_zero l.bitfield)) [
    | inl z ↦ inl (ground arith, λ s h. unmarked s h (is_zero-true s l.bitfield h z))
    | inr o ↦
        let (y, t, p, q, e, m) = first o in
        let found_due =
          found o (slot_deadline_lem level now gap small p q (due-agree y e m)) (due-later p) in
        inr (expiration, found_due, expiration-IsNext o)
  ]
