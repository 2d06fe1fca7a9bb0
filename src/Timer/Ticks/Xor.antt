-- ===== src/Timer/Ticks/Xor.antt =====
-- The highest bit in which two ticks differ, as the level computation of norn-timer/src/wheels.rs
-- finds it: halving commutes with the operations on bits.
use Prim.Native.Nat.{digits, differ, max, bit_or, bit_xor, bit_or-bitwise, bit_xor-bitwise}
use native.Mathlib.Nat.{div-div-eq-div-mul, pow-succ', div-one}
use faser.Prelude.{ℕ, zero, suc, ◌+◌, ◌*◌, ◌/◌, ◌%◌, ◌^◌, ◌≤◌, ◌<◌, ◌≡◌, refl, sym, ◌∙◌, arith}

-- A native operation counts its digits by its first argument; any larger count does.
module _ (f : ℕ → ℕ → ℕ) where
  digits_fuel : (n m a b : ℕ) → a ≤ n → a ≤ m → digits (λ b. b) f n a b ≡ digits (λ b. b) f m a b
  digits_fuel zero zero a b p q = refl
  digits_fuel (suc n) zero zero b p q = refl
  digits_fuel zero (suc m) zero b p q = refl
  digits_fuel (suc n) (suc m) zero b p q = refl
  digits_fuel (suc n) zero (suc a) b p q = absurd (omega arith)
  digits_fuel zero (suc m) (suc a) b p q = absurd (omega arith)
  digits_fuel (suc n) (suc m) (suc a) b p q =
      omega (arith, digits_fuel n m (suc a / 2) (b / 2) (omega arith) (omega arith))

differ_le : (a b : ℕ) → a < 2 → b < 2 → differ a b ≤ 1
differ_le zero b p q = omega arith
differ_le (suc zero) zero p q = omega arith
differ_le (suc zero) (suc b) p q = omega arith
differ_le (suc (suc a)) b p q = absurd (omega arith)

differ_self : (a : ℕ) → a < 2 → differ a a ≡ 0
differ_self zero p = refl
differ_self (suc zero) p = refl
differ_self (suc (suc a)) p = absurd (omega arith)

differ_zero : (a b : ℕ) → a < 2 → b < 2 → differ a b ≡ 0 → a ≡ b
differ_zero zero b p q e = omega arith
differ_zero (suc zero) zero p q e = omega arith
differ_zero (suc zero) (suc b) p q e = omega arith
differ_zero (suc (suc a)) b p q e = absurd (omega arith)

xor_step : (a b : ℕ) → bit_xor a b ≡ bit_xor (a / 2) (b / 2) * 2 + differ (a % 2) (b % 2)
xor_step zero b = omega (arith, bit_xor-bitwise 0 b, bit_xor-bitwise 0 (b / 2))
xor_step (suc a) b = omega (
  arith,
  bit_xor-bitwise (suc a) b,
  bit_xor-bitwise (suc a / 2) (b / 2),
  digits_fuel differ a (suc a / 2) (suc a / 2) (b / 2) (omega arith) (omega arith),
)

or_step : (a b : ℕ) → bit_or a b ≡ bit_or (a / 2) (b / 2) * 2 + max (a % 2) (b % 2)
or_step zero b = omega (arith, bit_or-bitwise 0 b, bit_or-bitwise 0 (b / 2))
or_step (suc a) b = omega (
  arith,
  bit_or-bitwise (suc a) b,
  bit_or-bitwise (suc a / 2) (b / 2),
  digits_fuel max a (suc a / 2) (suc a / 2) (b / 2) (omega arith) (omega arith),
)

xor_half : (a b : ℕ) → bit_xor a b / 2 ≡ bit_xor (a / 2) (b / 2)
xor_half a b = omega (arith, xor_step a b, differ_le (a % 2) (b % 2) (omega arith) (omega arith))

xor_self : (n a : ℕ) → a ≤ n → bit_xor a a ≡ 0
xor_self n zero h = refl
xor_self zero (suc a) h = absurd (omega arith)
xor_self (suc n) (suc a) h =
    let rest : bit_xor (suc a / 2) (suc a / 2) ≡ 0 = xor_self n (suc a / 2) (omega arith) in
    omega (arith, xor_step (suc a) (suc a), rest, differ_self (suc a % 2) (omega arith))

xor_zero : (n a b : ℕ) → a ≤ n → bit_xor a b ≡ 0 → a ≡ b
xor_zero n zero b h e = omega (arith, bit_xor-bitwise 0 b)
xor_zero zero (suc a) b h e = absurd (omega arith)
xor_zero (suc n) (suc a) b h e = omega (
  arith,
  xor_step (suc a) b,
  xor_zero n (suc a / 2) (b / 2) (omega arith) (omega (arith, xor_step (suc a) b)),
  differ_zero (suc a % 2) (b % 2) (omega arith) (omega arith) (omega (arith, xor_step (suc a) b)),
)

half_pow : (k n : ℕ) → n / 2 ^ suc k ≡ n / 2 / 2 ^ k
half_pow k n = rw (pow-succ' 2 k) (sym (div-div-eq-div-mul n 2 (2 ^ k)))

xor_shift : (k a b : ℕ) → bit_xor a b / 2 ^ k ≡ bit_xor (a / 2 ^ k) (b / 2 ^ k)
xor_shift zero a b = rw (div-one (bit_xor a b), div-one a, div-one b)
xor_shift (suc k) a b =
    rw (half_pow k (bit_xor a b), half_pow k a, half_pow k b, xor_half a b)
      (xor_shift k (a / 2) (b / 2))

-- Ticks that agree from bit `k` up differ below it.
pub xor_agree : (k a b : ℕ) → a / 2 ^ k ≡ b / 2 ^ k → bit_xor a b / 2 ^ k ≡ 0
xor_agree k a b e = rw (xor_shift k a b, e) (xor_self (b / 2 ^ k) (b / 2 ^ k) (omega arith))

xor_eq : (k a b : ℕ) → bit_xor a b / 2 ^ k ≡ 0 → a / 2 ^ k ≡ b / 2 ^ k
xor_eq k a b e =
    xor_zero (a / 2 ^ k) (a / 2 ^ k) (b / 2 ^ k) (omega arith) (sym (xor_shift k a b) ∙ e)

-- Ticks of which one is less from bit `k` up differ there.
pub xor_differ : (k a b : ℕ) → a / 2 ^ k < b / 2 ^ k → 0 < bit_xor a b / 2 ^ k
xor_differ k a b h = grind (arith, xor_eq k a b)

or_zero : (n a : ℕ) → a ≤ n → bit_or a 0 ≡ a
or_zero n zero h = refl
or_zero zero (suc a) h = absurd (omega arith)
or_zero (suc n) (suc a) h = omega (arith, or_step (suc a) 0, or_zero n (suc a / 2) (omega arith))

-- Six ones, set in the lowest bits.
pub or_mask : (a : ℕ) → bit_or a 63 ≡ a / 64 * 64 + 63
or_mask a =
    let s₁ : bit_or a 63 ≡ bit_or (a / 2) 31 * 2 + max (a % 2) 1 = or_step a 63 in
    let s₂ : bit_or (a / 2) 31 ≡ bit_or (a / 2 / 2) 15 * 2 + max (a / 2 % 2) 1 =
      or_step (a / 2) 31 in
    let s₃ : bit_or (a / 2 / 2) 15 ≡ bit_or (a / 2 / 2 / 2) 7 * 2 + max (a / 2 / 2 % 2) 1 =
      or_step (a / 2 / 2) 15 in
    let s₄ : bit_or (a / 2 / 2 / 2) 7
        ≡ bit_or (a / 2 / 2 / 2 / 2) 3 * 2 + max (a / 2 / 2 / 2 % 2) 1 =
      or_step (a / 2 / 2 / 2) 7 in
    let s₅ : bit_or (a / 2 / 2 / 2 / 2) 3
        ≡ bit_or (a / 2 / 2 / 2 / 2 / 2) 1 * 2 + max (a / 2 / 2 / 2 / 2 % 2) 1 =
      or_step (a / 2 / 2 / 2 / 2) 3 in
    let s₆ : bit_or (a / 2 / 2 / 2 / 2 / 2) 1
        ≡ bit_or (a / 2 / 2 / 2 / 2 / 2 / 2) 0 * 2 + max (a / 2 / 2 / 2 / 2 / 2 % 2) 1 =
      or_step (a / 2 / 2 / 2 / 2 / 2) 1 in
    let z = or_zero (a / 2 / 2 / 2 / 2 / 2 / 2) (a / 2 / 2 / 2 / 2 / 2 / 2) (omega arith) in
    omega arith
