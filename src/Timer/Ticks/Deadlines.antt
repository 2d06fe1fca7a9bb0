-- ===== src/Timer/Ticks/Deadlines.antt =====
-- The tick at which a slot of norn-timer/src/level.rs falls due.
use faser.Prelude.{ℕ, zero, suc, ◌+◌, ◌*◌, ◌/◌, ◌%◌, ◌<◌, ◌≡◌, refl, done, arith}
use faser.Timer.Ticks.{num_levels, slot_range, level_range, slot_for}
use faser.Timer.Level.{slot_deadline}

pub slot_for_lem :
    (level deadline : ℕ)
    → level < num_levels
    → slot_for deadline level ≡ deadline / slot_range level % 64
slot_for_lem zero d h = refl
slot_for_lem (suc zero) d h = refl
slot_for_lem (suc (suc zero)) d h = refl
slot_for_lem (suc (suc (suc zero))) d h = refl
slot_for_lem (suc (suc (suc (suc zero)))) d h = refl
slot_for_lem (suc (suc (suc (suc (suc zero))))) d h = refl
slot_for_lem (suc (suc (suc (suc (suc (suc n)))))) d h = absurd (omega arith)

-- The slot that lies `z` slots ahead falls due when it begins.
pub slot_deadline_lem :
    (level now z : ℕ)
    → level < num_levels
    → 0 < z
    → z < 64
    → (level < 5 → (now / slot_range level + z) / 64 ≡ now / level_range level)
    → slot_deadline level now ((z + now / slot_range level) % 64)
      ≡ done ((now / slot_range level + z) * slot_range level)
unfolding slot_deadline
slot_deadline_lem zero now z h p q r = ground (arith, r (omega arith))
slot_deadline_lem (suc zero) now z h p q r = ground (arith, r (omega arith))
slot_deadline_lem (suc (suc zero)) now z h p q r = ground (arith, r (omega arith))
slot_deadline_lem (suc (suc (suc zero))) now z h p q r = ground (arith, r (omega arith))
slot_deadline_lem (suc (suc (suc (suc zero)))) now z h p q r = ground (arith, r (omega arith))
slot_deadline_lem (suc (suc (suc (suc (suc zero))))) now z h p q r = ground arith
slot_deadline_lem (suc (suc (suc (suc (suc (suc n)))))) now z h p q r = absurd (omega arith)
