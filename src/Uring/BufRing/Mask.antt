-- ===== src/Uring/BufRing/Mask.antt =====
-- The mask of norn-uring/src/bufring.rs takes a remainder.
use Prim.Native.Nat.{digits, min, bit_and, bit_and-bitwise}
use native.Mathlib.Nat.{
  pow-succ', mod-eq_of_lt, mul-add-mod_self_left, div-add-mod, mod-lt, one-le-pow, mul_assoc,
}
use faser.Prelude.{ℕ, zero, suc, ◌+◌, ◌-◌, ◌*◌, ◌/◌, ◌%◌, ◌^◌, ◌≤◌, ◌<◌, ◌≡◌, refl, ap, ◌∙◌, arith}

-- More digits than the first argument has make no difference.
digits_enough :
    (n m a b : ℕ) → a ≤ n → a ≤ m → digits (λ b. zero) min n a b ≡ digits (λ b. zero) min m a b
digits_enough zero zero a b p q = refl
digits_enough (suc n) zero zero b p q = refl
digits_enough zero (suc m) zero b p q = refl
digits_enough (suc n) (suc m) zero b p q = refl
digits_enough (suc n) zero (suc a) b p q = absurd (omega arith)
digits_enough zero (suc m) (suc a) b p q = absurd (omega arith)
digits_enough (suc n) (suc m) (suc a) b p q =
    omega (arith, digits_enough n m (suc a / 2) (b / 2) (omega arith) (omega arith))

and_step : (a b : ℕ) → bit_and a b ≡ bit_and (a / 2) (b / 2) * 2 + min (a % 2) (b % 2)
and_step zero b = omega (arith, bit_and-bitwise 0 b, bit_and-bitwise 0 (b / 2))
and_step (suc a) b = omega (
  arith,
  bit_and-bitwise (suc a) b,
  bit_and-bitwise (suc a / 2) (b / 2),
  digits_enough a (suc a / 2) (suc a / 2) (b / 2) (omega arith) (omega arith),
)

mod_double : (a n : ℕ) → 0 < n → a % (2 * n) ≡ a / 2 % n * 2 + a % 2
mod_double a n h =
    let q = a / 2 / n in
    let r = a / 2 % n * 2 + a % 2 in
    let split : a ≡ 2 * n * q + r = omega (arith, div-add-mod (a / 2) n, mul_assoc 2 n q) in
    let small : r < 2 * n = omega (arith, mod-lt (a / 2) h) in
    ap (λ (x : ℕ). x % (2 * n)) split ∙ mul-add-mod_self_left (2 * n) q r ∙ mod-eq_of_lt small

and_zero : (n a : ℕ) → a ≤ n → bit_and a 0 ≡ 0
and_zero n zero h = refl
and_zero zero (suc a) h = absurd (omega arith)
and_zero (suc n) (suc a) h = omega (arith, and_step (suc a) 0, and_zero n (suc a / 2) (omega arith))

pub and_mask : (k a : ℕ) → bit_and a (2 ^ k - 1) ≡ a % 2 ^ k
and_mask zero a = omega (arith, and_zero a a (omega arith))
and_mask (suc k) a =
    let half : (2 ^ suc k - 1) / 2 ≡ 2 ^ k - 1 =
      omega (arith, pow-succ' 2 k, one-le-pow k 2 (omega arith)) in
    let odd : (2 ^ suc k - 1) % 2 ≡ 1 =
      omega (arith, pow-succ' 2 k, one-le-pow k 2 (omega arith)) in
    and_step a (2 ^ suc k - 1)
    ∙ rw (half, odd, pow-succ' 2 k)
        (omega (arith, and_mask k (a / 2), mod_double a (2 ^ k) (one-le-pow k 2 (omega arith))))
