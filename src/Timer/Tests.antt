-- ===== src/Timer/Tests.antt =====
-- Runs of the timer model.
use faser.Prelude.{
  ℕ, ◌≡◌, inl, refl, false, [], ◌∷◌, Option, none, some, Outcome, done, panic, ◌>>=◌, ◌^◌, arith,
}
use faser.Timer.Driver.{ParkMode, timeout, no_park, nanos_per_milli, park, narrow}
use faser.Timer.Driver
use faser.Timer.Wheels.Removing.{Linked}
use faser.Timer.Sleep.{Sleep, registers, poll, reset}
use faser.Timer.Sleep
use faser.Timer.Bits.{is_zero, any_from, trailing_zeros, zeros_from}
use faser.Timer.Ticks.{slot_for, wheel_for, masked, leading_zeros, bit_width}
use faser.Timer.Level.{Entry, Expiration}
use faser.Timer.Level
use faser.Timer.Wheels.{Wheels, advance}
use faser.Timer.Wheels
use faser.Timer.Ticks.Placement.{Placed, Placed-wheel_for}
use faser.Timer.Wheels.Sums.{total}
use faser.Timer.Wheels.Sound.{WheelsSound, new-Sound}
use faser.Timer.Wheels.Inserting.{Inserted, insert-Inserted}
use faser.Timer.Wheels.Advance.{Advanced, advance-Advanced}
use faser.Timer.Wheels.Due.{is_due, advance_fired}

-- Opens the model for evaluation.
advanced : ℕ → Wheels → Outcome (ℕ × Option Expiration)
unfolding advance Wheels.sweep Wheels.settle Wheels.set_elapsed Wheels.take_entries Wheels.insert
    Wheels.insert_all Wheels.conclude Wheels.fire Wheels.next_from Wheels.next_expiration
    Wheels.remove Level.next_expiration Level.expiration_at Level.next_occupied_slot
    Level.slot_deadline Level.add_entry Level.take_slot Level.remove_entry Level.unlink Level.new
    Wheels.new wheel_for masked leading_zeros bit_width is_zero any_from trailing_zeros zeros_from
advanced now w = advance now w >>= λ r. done r.0

-- The test `timer_fire` of wheels.rs.
one : Wheels
one = Wheels.insert (record { id = 1; deadline = 20 }) Wheels.new

timer_early : advanced 10 one ≡ done (0, some (record { level = 0; slot = 20; deadline = 20 }))
unfolding advanced one
timer_early = refl

timer_late : advanced 50 one ≡ done (1, none)
unfolding advanced one
timer_late = refl

two : Wheels
two =
    Wheels.insert (record { id = 2; deadline = 2 ^ 31 })
      (Wheels.insert (record { id = 1; deadline = 2 ^ 36 }) Wheels.new)

-- A timer a whole turn of the highest level away hides one that is nearer.
far_hides :
    advanced (2 ^ 31) two ≡ done (0, some (record { level = 5; slot = 0; deadline = 2 ^ 36 }))
unfolding advanced two
far_hides = refl

-- A wheel that holds one timer, at tick 20.
abbrev timer : Entry
timer = record { id = 1; deadline = 20 }

abbrev held : Wheels
held = Wheels.insert timer Wheels.new

held-Inserted : Inserted (timer ∷ []) Wheels.new (Wheels.insert timer Wheels.new)
unfolding Wheels.new
held-Inserted =
    insert-Inserted timer Wheels.new refl (record { later = omega arith; near = omega arith })
      new-Sound

held-Sound : WheelsSound held.elapsed held.wheels
held-Sound = held-Inserted.sound

held_elapsed : held.elapsed ≡ 0
unfolding Wheels.new
held_elapsed = held-Inserted.elapsed

held_alive : held.is_shutdown ≡ false
unfolding Wheels.new
held_alive = held-Inserted.alive

advance_fired_example :
    (next : Option Expiration) × (w' : Wheels) × (advance 50 held
      ≡ done ((total (is_due 50) held.wheels, next), w'))
    × (total (is_due 50) w'.wheels ≡ 0)
advance_fired_example = advance_fired 50 held held-Sound held_alive (omega (arith, held_elapsed))

advance-Advanced_example :
    (fired : ℕ) × (next : Option Expiration) × (w' : Wheels) × (advance 50 held
      ≡ done ((fired, next), w'))
    × Advanced 50 held fired next w'
advance-Advanced_example =
    advance-Advanced 50 held held-Sound held_alive (omega (arith, held_elapsed))

Placed-wheel_for_example : Placed 5 4096 (wheel_for 5 4096)
Placed-wheel_for_example = Placed-wheel_for 5 4096 (omega arith) (omega arith)

-- The driver sleeps although it was asked not to park.
no_park_lost :
    narrow 10 (some (record { level = 0; slot = 20; deadline = 20 })) no_park ≡ timeout (10 ^ 7)
unfolding narrow Driver.tick_to_duration
no_park_lost = refl

abbrev asleep : Sleep
asleep = record {
  state = Sleep.registered;
  waker = some 3;
  complete = Wheels.ok;
  deadline = 20;
  woken = [];
}

-- A sleep that is registered cannot be reset.
reset_panics : reset asleep ≡ panic
unfolding reset
reset_panics = refl

held-Placed : Placed held.elapsed timer.deadline 0
held-Placed = omega (arith, held_elapsed)

held-Linked : Linked timer ((held.wheels 0).slots (slot_for timer.deadline 0))
unfolding Wheels.new Wheels.insert wheel_for masked leading_zeros bit_width Level.add_entry
    Level.new
held-Linked = inl refl
