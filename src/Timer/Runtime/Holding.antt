-- ===== src/Timer/Runtime/Holding.antt =====
-- The wheel of norn-timer holds an entry for each sleep that is registered, with its deadline, and for
-- no other.
use native.Mathlib.Decide.{ℕ_discrete}
use faser.Prelude.{
  ℕ, zero, suc, ◌+◌, ◌≤◌, ◌≡◌, ◌≢◌, inl, inr, refl, Bool, true, false, List, [], ◌∷◌, All, arith,
  count_if, ◌⊎◌, ◌∙◌,
}
use faser.Timer.Bits.{update, update_self, update_other}
use faser.Timer.Ticks.{num_levels}
use faser.Timer.Level.{Entry, Level}
use faser.Timer.Wheels.{Firing, Completion}
use faser.Timer.Wheels.Sums.{count, sum_to, total, total_empty, level_count}
use faser.Timer.Wheels.Settling.{count_fired}
use faser.Timer.Sleep.{Sleep, is_registered, fire}
use faser.Timer.Runtime.{fire_each}
use faser.Timer.Runtime.Delivery.{of_id, fire_each-unfired, fire_each-fired}
use faser.Timer.Runtime.Finding.{stale}

sum_to-le :
    (n : ℕ) (f g h : ℕ → ℕ) → ((k : ℕ) → f k ≤ g k + h k) → sum_to n f ≤ sum_to n g + sum_to n h
unfolding sum_to
sum_to-le zero f g h p = omega arith
sum_to-le (suc n) f g h p = omega (arith, p n, sum_to-le n f g h p)

-- If each entry that `q` counts is counted by `r` or `s`, so for lists and wheels.
module _ (q r s : Entry → Bool)
    (p : (e : Entry) → count_if (q e) ≤ count_if (r e) + count_if (s e)) where
  count-le : (xs : List Entry) → count q xs ≤ count r xs + count s xs
  count-le [] = omega arith
  count-le (x ∷ xs) = omega (arith, p x, count-le xs)

  pub total-le : (ws : ℕ → Level) → total q ws ≤ total r ws + total s ws
  total-le ws =
      sum_to-le num_levels (λ i. level_count q (ws i)) (λ i. level_count r (ws i))
        (λ i. level_count s (ws i))
        (λ i.
          sum_to-le 64 (λ k. count q ((ws i).slots k)) (λ k. count r ((ws i).slots k))
            (λ k. count s ((ws i).slots k)) (λ k. count-le ((ws i).slots k)))

  pub count_fired-le : (fs : List Firing) → count_fired q fs ≤ count_fired r fs + count_fired s fs
  count_fired-le [] = omega arith
  count_fired-le (f ∷ fs) = omega (arith, p f.entry, count_fired-le fs)

-- A stale entry is an entry.
stale-le : (i d : ℕ) (e : Entry) → count_if (stale i d e) ≤ count_if (of_id i e) + count_if false
stale-le i d e = ground arith

count_none : (xs : List Entry) → count (λ e. false) xs ≡ 0
count_none [] = refl
count_none (x ∷ xs) = omega (arith, count_none xs)

total_none : (ws : ℕ → Level) → total (λ e. false) ws ≡ 0
total_none ws = total_empty (λ e. false) ws (λ i s h k. count_none ((ws i).slots s))

count_if_le : (b : Bool) → count_if b ≤ 1
count_if_le true = omega arith
count_if_le false = omega arith

pub total-stale : (i d : ℕ) (ws : ℕ → Level) → total (stale i d) ws ≤ total (of_id i) ws
total-stale i d ws =
    omega (arith, total-le (stale i d) (of_id i) (λ e. false) (stale-le i d) ws, total_none ws)

pub record Holds (ws : ℕ → Level) (f : ℕ → Sleep) : Type 0 where
  pub held : (i : ℕ) → total (of_id i) ws ≡ count_if (is_registered ((f i).state))
  pub dated : (i : ℕ) → total (stale i (f i).deadline) ws ≡ 0

-- The wheel and one sleep are changed.
pub update-Holds :
    (i : ℕ) (s : Sleep) (ws ws' : ℕ → Level) (f : ℕ → Sleep)
    → Holds ws f
    → ((j : ℕ) → j ≢ i → total (of_id j) ws' ≡ total (of_id j) ws)
    → ((j : ℕ) → j ≢ i → total (stale j (f j).deadline) ws' ≡ total (stale j (f j).deadline) ws)
    → total (of_id i) ws' ≡ count_if (is_registered s.state)
    → total (stale i s.deadline) ws' ≡ 0
    → Holds ws' (update f i s)
update-Holds i s ws ws' f h a b c d = record {
  held = λ j. elim (ℕ_discrete j i) [
    | yes p ↦ rw (p, update_self f i s) c
    | no p ↦ rw (update_other f i s j p) (a j p ∙ h.held j)
  ];
  dated = λ j. elim (ℕ_discrete j i) [
    | yes p ↦ rw (p, update_self f i s) d
    | no p ↦ rw (update_other f i s j p) (b j p ∙ h.dated j)
  ];
}

-- What firings that leave a wheel do to the sleeps: each that has an entry among them is fired with
-- `c`, the others stay.
pub record Told (c : Completion) (fs : List Firing) (f g : ℕ → Sleep) : Type 0 where
  pub told : (i : ℕ) → count_fired (of_id i) fs ≡ 1 → g i ≡ fire c (f i)
  pub kept : (i : ℕ) → count_fired (of_id i) fs ≡ 0 → g i ≡ f i

pub fire_each-Told :
    (c : Completion) (fs : List Firing) (f : ℕ → Sleep)
    → All (λ x. x.completion ≡ c) fs
    → Told c fs f (fire_each fs f)
fire_each-Told c fs f a = record {
  told = λ i h. fire_each-fired i c fs f a h;
  kept = λ i h. fire_each-unfired i fs f h;
}

-- Firings take their entries from the wheel.
module _ (c : Completion) (fs : List Firing) (ws ws' : ℕ → Level) (f : ℕ → Sleep) (h : Holds ws f)
    (a : All (λ x. x.completion ≡ c) fs)
    (k : (q : Entry → Bool) → total q ws ≡ count_fired q fs + total q ws') where
  once : (i : ℕ) → (count_fired (of_id i) fs ≡ 0) ⊎ (count_fired (of_id i) fs ≡ 1)
  once i = elim (ℕ_discrete (count_fired (of_id i) fs) 0) [
    | yes p ↦ inl p
    | no p ↦ inr (omega (arith, k (of_id i), h.held i, count_if_le (is_registered ((f i).state))))
  ]

  pub fire_each-Holds : Holds ws' (fire_each fs f)
  unfolding fire
  fire_each-Holds =
      let t = fire_each-Told c fs f a in
      record {
        held = λ i. elim (once i) [
          | inl n ↦ rw (t.kept i n) (omega (arith, k (of_id i), n, h.held i))
          | inr o ↦
              rw (t.told i o)
                (omega (arith, k (of_id i), o, h.held i, count_if_le (is_registered ((f i).state))))
        ];
        dated = λ i. elim (once i) [
          | inl n ↦ rw (t.kept i n) (omega (arith, k (stale i (f i).deadline), h.dated i))
          | inr o ↦ rw (t.told i o) (omega (arith, k (stale i (f i).deadline), h.dated i))
        ];
      }
