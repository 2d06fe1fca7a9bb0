-- ===== src/Timer/Runtime/Delivery.antt =====
-- What the firings of the wheel do to the sleeps of norn-timer/src/entry.rs.
use faser.Prelude.{ℕ, ◌≡◌, refl, ◌∙◌, Bool, ◌==◌, List, [], ◌∷◌, All, arith, Bool-cases, inl, inr}
use faser.Timer.Bits.{update_self, update_other}
use faser.Timer.Level.{Entry}
use faser.Timer.Wheels.{Firing, Completion}
use faser.Timer.Wheels.Settling.{count_fired}
use faser.Timer.Sleep.{Sleep, fire}
use faser.Timer.Runtime.{fire_each}

-- The entries of a sleep.
abbrev pub of_id : ℕ → Entry → Bool
of_id i e = e.id == i

-- A sleep that no firing is for stays as it is.
pub fire_each-unfired :
    (i : ℕ) (fs : List Firing) (f : ℕ → Sleep)
    → count_fired (of_id i) fs ≡ 0
    → fire_each fs f i ≡ f i
unfolding fire_each
fire_each-unfired i [] f h = refl
fire_each-unfired i (x ∷ xs) f h = elim (Bool-cases (x.entry.id == i)) [
  | inl b ↦ absurd (ground (arith))
  | inr b ↦
      update_other (fire_each xs f) x.entry.id _ i (ground arith)
      ∙ fire_each-unfired i xs f (ground arith)
]

-- A sleep with one firing is fired, once and with its completion.
pub fire_each-fired :
    (i : ℕ) (c : Completion) (fs : List Firing) (f : ℕ → Sleep)
    → All (λ x. x.completion ≡ c) fs
    → count_fired (of_id i) fs ≡ 1
    → fire_each fs f i ≡ fire c (f i)
unfolding fire_each
fire_each-fired i c [] f a h = absurd (omega arith)
fire_each-fired i c (x ∷ xs) f a h = elim (Bool-cases (x.entry.id == i)) [
  | inl b ↦
      let e : x.entry.id ≡ i = ground arith in
      let old = fire_each-unfired i xs f (ground arith) in
      rw (e, update_self (fire_each xs f) i (fire x.completion (fire_each xs f i)), a.0, old) refl
  | inr b ↦
      update_other (fire_each xs f) x.entry.id _ i (ground arith)
      ∙ fire_each-fired i c xs f a.1 (ground arith)
]
