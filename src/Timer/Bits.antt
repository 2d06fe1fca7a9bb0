-- ===== src/Timer/Bits.antt =====
-- A `u64` that is used as a set of 64 flags (norn-timer/src/level.rs, `bitfield`): bit `i` is the
-- value at `i`, and what stands at 64 and above is never read.
use faser.Prelude.{
  ℕ, zero, suc, ◌+◌, ◌%◌, ◌≤◌, ◌<◌, ◌≡◌, Bool, true, false, not, ◌==◌, if◌then◌else◌, arith,
  Bool-cases, inl, inr,
}
pub use faser.Store.{update, update_self, update_other}

abbrev pub Bits : Type 0
Bits = ℕ → Bool

abbrev pub no_bits : Bits
no_bits i = false

-- `bits == 0`.
unfoldable pub any_from : ℕ → ℕ → Bits → Bool
any_from zero i bits = false
any_from (suc n) i bits = if bits i then true else any_from n (suc i) bits

unfoldable pub is_zero : Bits → Bool
is_zero bits = not (any_from 64 0 bits)

-- `u64::rotate_right`, which takes its argument modulo 64.
abbrev pub rotate_right : Bits → ℕ → Bits
rotate_right bits k i = bits ((i + k) % 64)

unfoldable pub zeros_from : ℕ → ℕ → Bits → ℕ
zeros_from zero i bits = i
zeros_from (suc n) i bits = let rest = zeros_from n (suc i) bits in if bits i then i else rest

-- `u64::trailing_zeros`.
unfoldable pub trailing_zeros : Bits → ℕ
trailing_zeros bits = zeros_from 64 0 bits

zeros_from_lem :
    (n i j : ℕ) (bits : Bits)
    → i ≤ j
    → j < i + n
    → bits j ≡ true
    → (bits (zeros_from n i bits) ≡ true) × (zeros_from n i bits ≤ j)
unfolding zeros_from
zeros_from_lem zero i j bits h k e = absurd (omega arith)
zeros_from_lem (suc n) i j bits h k e = elim (Bool-cases (bits i)) [
  | inl b ↦ rw b (b, h)
  | inr b ↦ rw b (zeros_from_lem n (suc i) j bits (ground arith) (omega arith) e)
]

-- The lowest bit that is set.
pub trailing_zeros_lem :
    (j : ℕ) (bits : Bits)
    → j < 64
    → bits j ≡ true
    → (bits (trailing_zeros bits) ≡ true) × (trailing_zeros bits ≤ j)
unfolding trailing_zeros
trailing_zeros_lem j bits h e = zeros_from_lem 64 0 j bits (omega arith) (omega arith) e

any_from_lem :
    (n i j : ℕ) (bits : Bits) → i ≤ j → j < i + n → any_from n i bits ≡ false → bits j ≡ false
unfolding any_from
any_from_lem zero i j bits h k e = absurd (omega arith)
any_from_lem (suc n) i j bits h k e = elim (Bool-cases (i == j)) [
  | inl b ↦ ground arith
  | inr b ↦ any_from_lem n (suc i) j bits (ground arith) (omega arith) (ground arith)
]

pub is_zero-true : (j : ℕ) (bits : Bits) → j < 64 → is_zero bits ≡ true → bits j ≡ false
unfolding is_zero
is_zero-true j bits h e = any_from_lem 64 0 j bits (omega arith) (omega arith) (ground arith)

any_from-true :
    (n i : ℕ) (bits : Bits)
    → any_from n i bits ≡ true
    → (j : ℕ) × (i ≤ j) × (j < i + n) × (bits j ≡ true)
unfolding any_from
any_from-true zero i bits e = cc
any_from-true (suc n) i bits e = elim (Bool-cases (bits i)) [
  | inl b ↦ (i, omega arith, omega arith, b)
  | inr b ↦
      let (j, p, q, r) = any_from-true n (suc i) bits (ground arith) in
      (j, omega arith, omega arith, r)
]

pub is_zero-false : (bits : Bits) → is_zero bits ≡ false → (j : ℕ) × (j < 64) × (bits j ≡ true)
unfolding is_zero
is_zero-false bits e =
    let (j, p, q, r) = any_from-true 64 0 bits (ground arith) in (j, omega arith, r)
