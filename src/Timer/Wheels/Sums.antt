-- ===== src/Timer/Wheels/Sums.antt =====
-- Counting the entries of a wheel: two wheels hold the same entries, as often, when every test counts
-- as many in both.
use faser.Prelude.{
  ℕ, zero, suc, ◌+◌, ◌≤◌, ◌<◌, ◌≡◌, ◌≢◌, Bool, true, false, List, [], ◌∷◌, count_if, arith, refl,
  ap, ◌*◌,
}
use native.Mathlib.Decide.{ℕ_discrete}
use faser.Timer.Bits.{update, update_self, update_other}
use faser.Timer.Ticks.{num_levels}
use faser.Timer.Level.{Entry, Level}

abbrev pub count : (Entry → Bool) → List Entry → ℕ
count q [] = 0
count q (x ∷ xs) = count_if (q x) + count q xs

unfoldable pub sum_to : ℕ → (ℕ → ℕ) → ℕ
sum_to zero f = 0
sum_to (suc n) f = f n + sum_to n f

-- The entries of a level, and of all levels, that pass the test.
abbrev pub level_count : (Entry → Bool) → Level → ℕ
level_count q l = sum_to 64 (λ s. count q (l.slots s))

abbrev pub total : (Entry → Bool) → (ℕ → Level) → ℕ
total q ws = sum_to num_levels (λ i. level_count q (ws i))

-- The marked slots.
abbrev pub level_marks : Level → ℕ
level_marks l = sum_to 64 (λ s. count_if (l.bitfield s))

abbrev pub marks : (ℕ → Level) → ℕ
marks ws = sum_to num_levels (λ i. level_marks (ws i))

pub sum_to-congr : (n : ℕ) (f g : ℕ → ℕ) → ((i : ℕ) → i < n → f i ≡ g i) → sum_to n f ≡ sum_to n g
unfolding sum_to
sum_to-congr zero f g h = refl
sum_to-congr (suc n) f g h =
    omega (arith, h n (omega arith), sum_to-congr n f g (λ i k. h i (omega arith)))

-- Two sums that differ in one place.
pub sum_to_change :
    (n k : ℕ) (f g : ℕ → ℕ)
    → k < n
    → ((i : ℕ) → i < n → i ≢ k → g i ≡ f i)
    → sum_to n g + f k ≡ sum_to n f + g k
unfolding sum_to
sum_to_change zero k f g h e = absurd (omega arith)
sum_to_change (suc n) k f g h e = elim (ℕ_discrete k n) [
  | yes p ↦ rw p (omega (arith, sum_to-congr n g f (λ i j. e i (omega arith) (omega arith))))
  | no p ↦ omega (
    arith,
    e n (omega arith) (omega arith),
    sum_to_change n k f g (omega arith) (λ i j. e i (omega arith)),
  )
]

-- One element replaced, measured by `m`.
pub sum_to-update :
    {A : Type 0} (m : A → ℕ) (n k : ℕ) (f : ℕ → A) (v : A)
    → k < n
    → sum_to n (λ i. m (update f k v i)) + m (f k) ≡ sum_to n (λ i. m (f i)) + m v
sum_to-update m n k f v h = omega (
  arith,
  sum_to_change n k (λ i. m (f i)) (λ i. m (update f k v i)) h
      (λ i _ d. ap m (update_other f k v i d)),
  ap m (update_self f k v),
)

pub sum_to_le : (n b : ℕ) (f : ℕ → ℕ) → ((i : ℕ) → i < n → f i ≤ b) → sum_to n f ≤ n * b
unfolding sum_to
sum_to_le zero b f h = omega arith
sum_to_le (suc n) b f h =
    omega (arith, h n (omega arith), sum_to_le n b f (λ i k. h i (omega arith)))

pub sum_to_zero : (n : ℕ) (f : ℕ → ℕ) → ((i : ℕ) → i < n → f i ≡ 0) → sum_to n f ≡ 0
unfolding sum_to
sum_to_zero zero f h = refl
sum_to_zero (suc n) f h =
    omega (arith, h n (omega arith), sum_to_zero n f (λ i k. h i (omega arith)))

count_if_le : (b : Bool) → count_if b ≤ 1
count_if_le true = omega arith
count_if_le false = omega arith

-- There are 384 slots.
pub marks_le : (ws : ℕ → Level) → marks ws ≤ 384
marks_le ws =
    sum_to_le 6 64 (λ i. level_marks (ws i))
      (λ i _. sum_to_le 64 1 (λ s. count_if ((ws i).bitfield s)) (λ s _. count_if_le _))

pub total_empty :
    (q : Entry → Bool) (ws : ℕ → Level)
    → ((i s : ℕ) → i < num_levels → s < 64 → count q ((ws i).slots s) ≡ 0)
    → total q ws ≡ 0
total_empty q ws h =
    sum_to_zero 6 (λ i. level_count q (ws i))
      (λ i k. sum_to_zero 64 (λ s. count q ((ws i).slots s)) (λ s m. h i s k m))
