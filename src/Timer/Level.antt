-- ===== src/Timer/Level.antt =====
-- norn-timer/src/level.rs: one level of the wheel. The array of 64 slots is a function of the index,
-- read below 64 only. An entry stands for the pointer to it, by a number, with its deadline, which
-- does not change while the entry is linked. `cordyceps::List` is a list, its front first. The
-- `debug_assert!`s are checked, as in a debug build.
pub mod Next
use faser.Prelude.{
  ℕ, ◌+◌, ◌-◌, ◌*◌, ◌/◌, ◌%◌, Bool, true, false, not, leb, ◌==◌, if◌then◌else◌, Option, none, some,
  List, [], ◌∷◌, Outcome, done, ◌>>=◌, ◌>>◌, assert,
}
use faser.Timer.Bits.{Bits, no_bits, update, is_zero, rotate_right, trailing_zeros}
use faser.Timer.Ticks.{num_levels, slot_range, level_range, slot_for}

pub record Entry : Type 0 where
  pub id : ℕ
  pub deadline : ℕ

pub record Expiration : Type 0 where
  pub level : ℕ
  pub slot : ℕ
  pub deadline : ℕ

pub record Level : Type 0 where
  pub level : ℕ
  pub bitfield : Bits
  pub slots : ℕ → List Entry

unfoldable pub new : ℕ → Level
new level = record { level = level; bitfield = no_bits; slots = λ i. [] }

unfoldable pub next_occupied_slot : Level → ℕ → Option ℕ
next_occupied_slot l now =
    if is_zero l.bitfield
    then none
    else let now_slot = now / slot_range l.level in
      let zeros = trailing_zeros (rotate_right l.bitfield now_slot) in
      some ((zeros + now_slot) % 64)

-- The beginning of the slot, one turn later if that is past.
unfoldable pub slot_deadline : ℕ → ℕ → ℕ → Outcome ℕ
slot_deadline level now slot =
    let level_start = now - now % level_range level in
    let deadline = level_start + slot * slot_range level in
    if leb deadline now
    then (assert (level == num_levels - 1) >> done (deadline + level_range level))
    else done deadline

unfoldable pub expiration_at : Level → ℕ → Option ℕ → Outcome (Option Expiration)
expiration_at l now none = done none
expiration_at l now (some slot) = do
  deadline ← slot_deadline l.level now slot
  assert (leb now deadline)
  done (some (record { level = l.level; slot = slot; deadline = deadline }))

unfoldable pub next_expiration : Level → ℕ → Outcome (Option Expiration)
next_expiration l now = expiration_at l now (next_occupied_slot l now)

unfoldable pub add_entry : Level → Entry → Level
add_entry l item =
    let slot = slot_for item.deadline l.level in
    record l {
      slots = update l.slots slot (item ∷ l.slots slot);
      bitfield = update l.bitfield slot true;
    }

-- `List::remove`, by the pointer.
unfoldable pub unlink : ℕ → List Entry → List Entry
unlink id [] = []
unlink id (x ∷ xs) = if x.id == id then xs else x ∷ unlink id xs

abbrev pub is_empty : List Entry → Bool
is_empty [] = true
is_empty (x ∷ xs) = false

unfoldable pub remove_entry : Level → Entry → Outcome Level
remove_entry l item =
    let slot = slot_for item.deadline l.level in
    let rest = unlink item.id (l.slots slot) in
    let l' = record l { slots = update l.slots slot rest } in
    if is_empty rest
    then (assert (l.bitfield slot)
        >> done (record l' { bitfield = update l.bitfield slot (not (l.bitfield slot)) }))
    else done l'

unfoldable pub take_slot : Level → ℕ → List Entry × Level
take_slot l slot = (
  l.slots slot,
  record l { bitfield = update l.bitfield slot false; slots = update l.slots slot [] },
)
