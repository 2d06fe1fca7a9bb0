-- ===== src/Timer/Ticks.antt =====
-- The arithmetic of norn-timer/src/level.rs and wheels.rs: which level and slot hold a deadline.
pub mod Xor
pub mod Placement
pub mod Deadlines
use faser.Prelude.{
  ℕ, zero, suc, ◌+◌, ◌-◌, ◌*◌, ◌/◌, ◌%◌, ◌^◌, ◌≤◌, ◌<◌, ◌≡◌, refl, Bool, true, false, ltb, leb,
  ◌==◌, if◌then◌else◌, arith,
}
use Prim.Native.Nat.{bit_or, bit_xor}

abbrev pub num_levels : ℕ
num_levels = 6

-- `NUM_LEVELS.pow(2)` is the 36 bits that six levels of six bits hold.
abbrev pub max_duration : ℕ
max_duration = 2 ^ (num_levels ^ 2) - 1

abbrev pub level_mult : ℕ
level_mult = 64

abbrev pub slot_range : ℕ → ℕ
slot_range level = level_mult ^ level

abbrev pub level_range : ℕ → ℕ
level_range level = level_mult * slot_range level

-- `duration >> (level * 6)` is a division by a power of two.
abbrev pub slot_for : ℕ → ℕ → ℕ
slot_for duration level = duration / 2 ^ (level * 6) % level_mult

-- 64 less `u64::leading_zeros`: the number of binary digits, counted on fuel.
unfoldable pub bit_width : ℕ → ℕ → ℕ
bit_width zero n = 0
bit_width (suc fuel) n = let rest = bit_width fuel (n / 2) in if n == 0 then 0 else suc rest

unfoldable pub leading_zeros : ℕ → ℕ
leading_zeros n = 64 - bit_width 64 n

-- `masked` as the code computes it.
unfoldable pub masked : ℕ → ℕ → ℕ
masked elapsed when =
    let m = bit_or (bit_xor elapsed when) (2 ^ num_levels - 1) in
    if leb max_duration m then max_duration - 1 else m

unfoldable pub wheel_for : ℕ → ℕ → ℕ
wheel_for elapsed when =
    let significant = 63 - leading_zeros (masked elapsed when) in significant / num_levels

wheel_for_time :
    (wheel_for 0 0 ≡ 0)
    × (wheel_for 0 63 ≡ 0)
    × (wheel_for 0 64 ≡ 1)
    × (wheel_for 0 (2 ^ 12) ≡ 2)
    × (wheel_for 0 (2 ^ 18) ≡ 3)
unfolding wheel_for masked leading_zeros bit_width
wheel_for_time = (refl, refl, refl, refl, refl)
