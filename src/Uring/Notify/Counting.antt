-- ===== src/Uring/Notify/Counting.antt =====
-- How many of the entries below a number have fired and were not polled since.
use native.Mathlib.Decide.{ℕ_discrete}
use faser.Prelude.{
  ℕ, zero, suc, ◌+◌, ◌≤◌, ◌<◌, ◌≡◌, refl, ap, Bool, true, false, List, [], ◌∷◌, ◌==◌, count_if,
  arith, min,
}
use faser.Timer.Wheels.Sums.{sum_to, sum_to-congr, sum_to_change, sum_to_zero}
use faser.Uring.Notify.{Notify, EntryState, Entry, fired}
use faser.Uring.Notify.Firing.{Inv, Fires, is_linked, Marked-le}
use faser.Uring.Notify.Queue.{length, occurrences, take, take-skip}
use faser.Uring.Notify.Waiting.{state_of, Others}

abbrev pub is_fired : EntryState → Bool
is_fired fired = true
is_fired s = false

abbrev pub mark : Notify → ℕ → ℕ
mark n i = count_if (is_fired (state_of i n))

unfoldable pub unclaimed : ℕ → Notify → ℕ
unclaimed bound n = sum_to bound (mark n)

-- No waiter has a number from `bound` on.
abbrev pub Below : ℕ → Notify → Type 0
Below bound n = (i : ℕ) → bound ≤ i → occurrences i n.waiters ≡ 0

sum_to-add : (n : ℕ) (f g : ℕ → ℕ) → sum_to n (λ i. f i + g i) ≡ sum_to n f + sum_to n g
unfolding sum_to
sum_to-add zero f g = omega arith
sum_to-add (suc n) f g = omega (arith, sum_to-add n f g)

sum_to_one : (n x : ℕ) → x < n → sum_to n (λ i. count_if (i == x)) ≡ 1
sum_to_one n x h =
    let none_else = sum_to_change n x (λ i. 0) (λ i. count_if (i == x)) h (λ i k p. ground arith) in
    let here : count_if (x == x) ≡ 1 = ground arith in
    omega (arith, none_else, sum_to_zero n (λ i. 0) (λ i k. refl), here)

sum_to-occurrences :
    (n : ℕ) (xs : List ℕ)
    → ((i : ℕ) → n ≤ i → occurrences i xs ≡ 0)
    → sum_to n (λ i. occurrences i xs) ≡ length xs
sum_to-occurrences n [] h = sum_to_zero n (λ i. 0) (λ i k. refl)
sum_to-occurrences n (x ∷ xs) h = omega (
  arith,
  sum_to-add n (λ i. count_if (i == x)) (λ i. occurrences i xs),
  sum_to_one n x (ground (arith, h x)),
  sum_to-occurrences n xs (λ i k. omega (arith, h i k)),
)

length-taken : (k : ℕ) (xs : List ℕ) → length (take k xs) ≡ min k (length xs)
length-taken zero xs = omega arith
length-taken (suc k) [] = omega arith
length-taken (suc k) (x ∷ xs) = omega (arith, length-taken k xs)

mark_lem :
    (k : ℕ) (n n' : Notify)
    → Inv n
    → Fires k n.waiters n n'
    → (i : ℕ) → mark n' i ≡ mark n i + occurrences i (take k n.waiters)
mark_lem k n n' v f i = elim (ℕ_discrete (occurrences i (take k n.waiters)) 0) [
  | yes z ↦ omega (arith, ap (λ (e : Entry). count_if (is_fired e.state)) (f.missed i z))
  | no z ↦
      let once = Marked-le n.waiters n v.marked i in
      let part = take-skip i k n.waiters in
      let before : mark n i ≡ 0 = linked_lem (state_of i n) (omega (arith, part, v.marked i)) in
      let after : mark n' i ≡ 1 = ap (λ s. count_if (is_fired s)) (f.hit i (omega arith)) in
      omega (arith, once, part, before, after)
]
  where
    linked_lem : (s : EntryState) → 0 < count_if (is_linked s) → count_if (is_fired s) ≡ 0
    linked_lem s h = ground arith

-- `notify(k)` on waiters below the bound.
pub unclaimed-Fires :
    (bound k : ℕ) (n n' : Notify)
    → Inv n
    → Below bound n
    → Fires k n.waiters n n'
    → unclaimed bound n' ≡ unclaimed bound n + min k (length n.waiters)
unfolding unclaimed
unclaimed-Fires bound k n n' v b f = omega (
  arith,
  sum_to-congr bound (mark n') (λ i. mark n i + occurrences i (take k n.waiters))
      (λ i h. mark_lem k n n' v f i),
  sum_to-add bound (mark n) (λ i. occurrences i (take k n.waiters)),
  sum_to-occurrences bound (take k n.waiters)
      (λ i h. omega (arith, b i h, take-skip i k n.waiters)),
  length-taken k n.waiters,
)

-- Only the entry of `i` changes.
pub unclaimed-Others :
    (bound i : ℕ) (m n : Notify)
    → i < bound
    → Others i m n
    → unclaimed bound n + mark m i ≡ unclaimed bound m + mark n i
unfolding unclaimed
unclaimed-Others bound i m n h o =
    sum_to_change bound i (mark m) (mark n) h
      (λ j k p. ap (λ (e : Entry). count_if (is_fired e.state)) (o j p))
