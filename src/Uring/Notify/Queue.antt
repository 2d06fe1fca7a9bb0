-- ===== src/Uring/Notify/Queue.antt =====
-- Lists of waiters: how often one occurs, and what unlinking and firing do to that.
use faser.Prelude.{
  ℕ, zero, suc, ◌+◌, ◌-◌, ◌<◌, ◌≡◌, ◌≢◌, refl, List, [], ◌∷◌, ◌++◌, ◌==◌, count_if, arith,
}
use faser.Uring.Notify.{unlink}

abbrev pub length {ℓ} : {A : Type ℓ} → List A → ℕ
length [] = 0
length (x ∷ xs) = suc (length xs)

abbrev pub occurrences : ℕ → List ℕ → ℕ
occurrences i [] = 0
occurrences i (x ∷ xs) = count_if (i == x) + occurrences i xs

-- The first `k`, and the others.
abbrev pub take {ℓ} : {A : Type ℓ} → ℕ → List A → List A
take zero xs = []
take (suc k) [] = []
take (suc k) (x ∷ xs) = x ∷ take k xs

abbrev pub skip {ℓ} : {A : Type ℓ} → ℕ → List A → List A
skip zero xs = xs
skip (suc k) [] = []
skip (suc k) (x ∷ xs) = skip k xs

pub occurrences-append :
    (i : ℕ) (xs ys : List ℕ) → occurrences i (xs ++ ys) ≡ occurrences i xs + occurrences i ys
occurrences-append i [] ys = omega arith
occurrences-append i (x ∷ xs) ys = omega (arith, occurrences-append i xs ys)

pub length-append {ℓ} : {A : Type ℓ} (xs ys : List A) → length (xs ++ ys) ≡ length xs + length ys
length-append [] ys = omega arith
length-append (x ∷ xs) ys = omega (arith, length-append xs ys)

pub unlink_self : (i : ℕ) (xs : List ℕ) → occurrences i (unlink i xs) ≡ occurrences i xs - 1
unfolding unlink
unlink_self i [] = refl
unlink_self i (x ∷ xs) = ground (arith, unlink_self i xs)

pub unlink_other : (i j : ℕ) (xs : List ℕ) → j ≢ i → occurrences j (unlink i xs) ≡ occurrences j xs
unfolding unlink
unlink_other i j [] h = refl
unlink_other i j (x ∷ xs) h = ground (arith, unlink_other i j xs h)

pub length-unlink :
    (i : ℕ) (xs : List ℕ) → 0 < occurrences i xs → suc (length (unlink i xs)) ≡ length xs
unfolding unlink
length-unlink i [] h = absurd (omega arith)
length-unlink i (x ∷ xs) h = ground (arith, length-unlink i xs)

pub length-skip {ℓ} : {A : Type ℓ} (k : ℕ) (xs : List A) → length (skip k xs) ≡ length xs - k
length-skip zero xs = omega arith
length-skip (suc k) [] = omega arith
length-skip (suc k) (x ∷ xs) = omega (arith, length-skip k xs)

pub take-skip :
    (i k : ℕ) (xs : List ℕ)
    → occurrences i xs ≡ occurrences i (take k xs) + occurrences i (skip k xs)
take-skip i zero xs = omega arith
take-skip i (suc k) [] = omega arith
take-skip i (suc k) (x ∷ xs) = omega (arith, take-skip i k xs)
