-- ===== src/Timer/Wheels.antt =====
-- norn-timer/src/wheels.rs: the wheel of six levels. The vector of levels is a function of the index.
-- What `Entry::fire` does to the owner of an entry is recorded as a firing.
pub mod Sums
pub mod Sound
pub mod Taking
pub mod Settling
pub mod Sweeping
pub mod Inserting
pub mod Advance
pub mod Due
pub mod Removing
pub mod Stopping
use faser.Prelude.{
  ℕ, zero, suc, ◌+◌, ◌/◌, ◌%◌, ◌^◌, Bool, true, false, not, leb, ltb, ◌==◌, if◌then◌else◌, Option,
  none, some, List, [], ◌∷◌, Outcome, done, no_fuel, ◌>>=◌, ◌>>◌, assert,
}
use faser.Timer.Bits.{update}
use faser.Timer.Ticks.{num_levels, wheel_for}
use faser.Timer.Level.{Level, Entry, Expiration, is_empty}
use faser.Timer.Level

-- The results that a timer completes with: `Ok(())`, or the error that the timer has shut down.
pub data Completion : Type 0 where
  ok : Completion
  shutdown_error : Completion

pub record Firing : Type 0 where
  pub entry : Entry
  pub completion : Completion

pub record Wheels : Type 0 where
  pub elapsed : ℕ
  pub is_shutdown : Bool
  pub wheels : ℕ → Level
  pub firings : List Firing  -- the latest first

unfoldable pub new : Wheels
new = record { elapsed = 0; is_shutdown = false; wheels = Level.new; firings = [] }

unfoldable pub fire : Completion → Entry → Wheels → Wheels
fire c e w = record w { firings = record { entry = e; completion = c } ∷ w.firings }

unfoldable pub next_from : ℕ → ℕ → Wheels → Outcome (Option Expiration)
next_from zero level w = done none
next_from (suc n) level w = Level.next_expiration (w.wheels level) w.elapsed >>= λ o. elim o [
  | some x ↦ done (some x)
  | none ↦ next_from n (suc level) w
]

unfoldable pub next_expiration : Wheels → Outcome (Option Expiration)
next_expiration w = next_from num_levels 0 w

unfoldable pub set_elapsed : ℕ → Wheels → Outcome Wheels
set_elapsed when w = do
  assert (leb w.elapsed when)
  done (record w { elapsed = if ltb w.elapsed when then when else w.elapsed })

unfoldable pub take_entries : Expiration → Wheels → List Entry × Wheels
take_entries x w =
    let (entries, l) = Level.take_slot (w.wheels x.level) x.slot in
    (entries, record w { wheels = update w.wheels x.level l })

unfoldable pub insert : Entry → Wheels → Wheels
insert e w =
    if w.is_shutdown
    then fire shutdown_error e w
    else if leb e.deadline w.elapsed
    then fire ok e w
    else let wheel = wheel_for w.elapsed e.deadline in
      record w { wheels = update w.wheels wheel (Level.add_entry (w.wheels wheel) e) }

unfoldable pub remove : Entry → Wheels → Outcome Wheels
remove e w =
    let wheel = wheel_for w.elapsed e.deadline in
    Level.remove_entry (w.wheels wheel) e >>= λ l.
    done (record w { wheels = update w.wheels wheel l })

-- What `advance` has in hand: the wheel, the entries to put back, and how many it has fired.
pub record Sweep : Type 0 where
  pub wheel : Wheels
  pub pending : List Entry
  pub fired : ℕ

-- The entries of a slot that is due.
unfoldable pub settle : ℕ → Expiration → List Entry → Sweep → Outcome Sweep
settle now x [] s = done s
settle now x (e ∷ es) s =
    let fired = settle now x es (record s { wheel = fire ok e s.wheel; fired = s.fired + 1 }) in
    let put_off =
      assert (not (x.level == 0)) >> settle now x es (record s { pending = e ∷ s.pending }) in
    if ltb now e.deadline then put_off else fired

-- The loop, on fuel; the second component is `next_expiration` at its end.
unfoldable pub sweep : ℕ → ℕ → Option Expiration → Sweep → Outcome (Sweep × Option Expiration)
sweep fuel now none s = done (s, none)
sweep zero now (some x) s = no_fuel
sweep (suc fuel) now (some x) s =
    let step = (do
      s' ← settle now x (take_entries x s.wheel).0 (record s { wheel = (take_entries x s.wheel).1 })
      w ← set_elapsed x.deadline s'.wheel
      next ← next_expiration w
      sweep fuel now next (record s' { wheel = w })) in
    if ltb now x.deadline then done (s, some x) else step

unfoldable pub insert_all : List Entry → Wheels → Wheels
insert_all [] w = w
insert_all (e ∷ es) w = insert_all es (insert e w)

-- What is left after the loop.
unfoldable pub conclude : ℕ → Sweep × Option Expiration → Outcome ((ℕ × Option Expiration) × Wheels)
conclude now (s, next) = do
  w ← set_elapsed now s.wheel
  let w' = insert_all s.pending w
  if is_empty s.pending
      then done ((s.fired, next), w')
      else (next_expiration w' >>= λ next'. done ((s.fired, next'), w'))

-- Each round of the loop empties a slot, so that as many rounds as there are slots are enough.
abbrev pub rounds : ℕ
rounds = 385

unfoldable pub advance : ℕ → Wheels → Outcome ((ℕ × Option Expiration) × Wheels)
advance now w = do
  next ← next_expiration w
  r ← sweep rounds now next (record { wheel = w; pending = []; fired = 0 })
  conclude now r

unfoldable pub fire_all : Completion → List Entry → Wheels → Wheels
fire_all c [] w = w
fire_all c (e ∷ es) w = fire_all c es (fire c e w)

unfoldable pub drain : ℕ → Option Expiration → Wheels → Outcome Wheels
drain fuel none w = done w
drain zero (some x) w = no_fuel
drain (suc fuel) (some x) w = do
  let w' = fire_all shutdown_error (take_entries x w).0 (take_entries x w).1
  next ← next_expiration w'
  drain fuel next w'

unfoldable pub shutdown : Wheels → Outcome Wheels
shutdown w = do
  let w' = record w { is_shutdown = true }
  next ← next_expiration w'
  drain rounds next w'

-- `TimerList::add`, for a duration in nanoseconds: its milliseconds are cut to 64 bits, and a sum that
-- overflows panics, as in a debug build.
unfoldable pub add : ℕ → ℕ → Wheels → Outcome Wheels
add id nanos w =
    let expiration = w.elapsed + nanos / 10 ^ 6 % 2 ^ 64 in
    let later = insert (record { id = id; deadline = expiration }) w in
    if nanos == 0
    then done (fire ok (record { id = id; deadline = w.elapsed }) w)
    else (assert (ltb expiration (2 ^ 64)) >> done later)
