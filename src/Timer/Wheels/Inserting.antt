-- ===== src/Timer/Wheels/Inserting.antt =====
-- `Wheels::insert` and `Wheels::remove` of norn-timer/src/wheels.rs, and `Level::add_entry` and
-- `Level::remove_entry` of level.rs.
use native.Mathlib.Decide.{ℕ_discrete}
use faser.Prelude.{
  ℕ, ◌+◌, ◌<◌, ◌≡◌, refl, sym, ◌∙◌, ap, Bool, true, false, not, List, [], ◌∷◌, arith, count_if, All,
  leb,
}
use faser.Timer.Bits.{update, update_self, update_other}
use faser.Timer.Ticks.{num_levels, slot_for, wheel_for}
use faser.Timer.Ticks.Placement.{Placed, Placed-wheel_for}
use faser.Timer.Level.{Entry, Level, add_entry, is_empty}
use faser.Timer.Level.Next.{Lies, Sound}
use faser.Timer.Wheels.{Wheels, insert, insert_all}
use faser.Timer.Wheels.Sums.{count, total, level_count, sum_to-update}
use faser.Timer.Wheels.Sound.{WheelsSound}
use faser.Timer.Wheels.Taking.{update-Sound}
use faser.Timer.Wheels.Settling.{Fits}

module _ (now level : ℕ) (l : Level) (e : Entry) (v : Sound now level l)
    (p : Placed now e.deadline level) where
  abbrev slot : ℕ
  slot = slot_for e.deadline l.level

  in_place : slot_for e.deadline level ≡ slot
  in_place = ap (slot_for e.deadline) (sym v.numbered)

  add_entry-Sound : Sound now level (add_entry l e)
  unfolding add_entry
  add_entry-Sound = record { numbered = v.numbered; lies = lies; marked = marked }
    where
      lies : (s : ℕ) → s < 64 → All (Lies now level s) (update l.slots slot (e ∷ l.slots slot) s)
      lies s h = elim (ℕ_discrete s slot) [
        | yes q ↦
            rw (q, update_self l.slots slot (e ∷ l.slots slot))
              (record { placed = p; slot = in_place }, v.lies slot (omega arith))
        | no q ↦ rw (update_other l.slots slot (e ∷ l.slots slot) s q) (v.lies s h)
      ]

      marked :
          (s : ℕ)
          → s < 64
          → update l.bitfield slot true s
            ≡ not (is_empty (update l.slots slot (e ∷ l.slots slot) s))
      marked s h = elim (ℕ_discrete s slot) [
        | yes q ↦
            rw (q, update_self l.slots slot (e ∷ l.slots slot), update_self l.bitfield slot true)
        | no q ↦
            rw
              (
                update_other l.slots slot (e ∷ l.slots slot) s q,
                update_other l.bitfield slot true s q,
              )
              (v.marked s h)
      ]

  level_count-add_entry :
      (q : Entry → Bool) → level_count q (add_entry l e) ≡ count_if (q e) + level_count q l
  unfolding add_entry
  level_count-add_entry q =
      omega (arith, sum_to-update (count q) 64 slot l.slots (e ∷ l.slots slot) (omega arith))

-- The wheel has taken the entries, and nothing else has changed.
pub record Inserted (es : List Entry) (w w' : Wheels) : Type 0 where
  pub elapsed : w'.elapsed ≡ w.elapsed
  pub alive : w'.is_shutdown ≡ w.is_shutdown
  pub firings : w'.firings ≡ w.firings
  pub sound : WheelsSound w'.elapsed w'.wheels
  pub holds : (q : Entry → Bool) → total q w'.wheels ≡ count q es + total q w.wheels

-- `Wheels::insert` of an entry that lies ahead within reach, on a wheel in order that is not shut
-- down, adds that entry and no other, fires nothing, leaves the time as it is and the wheel in
-- order.
pub insert-Inserted :
    (e : Entry) (w : Wheels)
    → w.is_shutdown ≡ false
    → Fits w.elapsed e
    → WheelsSound w.elapsed w.wheels
    → Inserted (e ∷ []) w (insert e w)
unfolding insert
insert-Inserted e w a f v =
    let wheel = wheel_for w.elapsed e.deadline in
    let p = Placed-wheel_for w.elapsed e.deadline f.later f.near in
    let l = add_entry (w.wheels wheel) e in
    let u = v wheel p.exists in
    let ahead : leb e.deadline w.elapsed ≡ false = ground (arith, f.later) in
    rw (a, ahead)
      (record {
        elapsed = refl;
        alive = refl;
        firings = refl;
        sound =
            update-Sound w.elapsed wheel w.wheels l v
              (add_entry-Sound w.elapsed wheel (w.wheels wheel) e u p);
        holds = λ q. omega (
          arith,
          sum_to-update (level_count q) num_levels wheel w.wheels l p.exists,
          level_count-add_entry w.elapsed wheel (w.wheels wheel) e u p q,
        );
      })

pub insert_all-Inserted :
    (es : List Entry) (w : Wheels)
    → w.is_shutdown ≡ false
    → All (Fits w.elapsed) es
    → WheelsSound w.elapsed w.wheels
    → Inserted es w (insert_all es w)
unfolding insert_all
insert_all-Inserted [] w a f v = record {
  elapsed = refl;
  alive = refl;
  firings = refl;
  sound = v;
  holds = λ q. omega arith;
}
insert_all-Inserted (e ∷ es) w a f v =
    let m = insert-Inserted e w a f.0 v in
    let w' = insert e w in
    let n = insert_all-Inserted es w' (m.alive ∙ a) (rw m.elapsed f.1) m.sound in
    record {
      elapsed = n.elapsed ∙ m.elapsed;
      alive = n.alive ∙ m.alive;
      firings = n.firings ∙ m.firings;
      sound = n.sound;
      holds = λ q. omega (arith, m.holds q, n.holds q);
    }
