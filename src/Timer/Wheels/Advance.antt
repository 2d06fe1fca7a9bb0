-- ===== src/Timer/Wheels/Advance.antt =====
-- `Wheels::advance` of norn-timer/src/wheels.rs as a whole.
use faser.Prelude.{
  ℕ, ◌+◌, ◌≤◌, ◌<◌, ◌≡◌, inl, inr, refl, sym, ◌∙◌, ap, subst, Bool, false, Option, none, some, List,
  [], ◌++◌, done, arith, All, All-map, Bool-cases, ◌>>=◌, bind_assoc,
}
use native.Mathlib.Nat.{div-mul-le_self}
use faser.Timer.Ticks.{num_levels, slot_range}
use faser.Timer.Ticks.Placement.{slot_start}
use faser.Timer.Level.{Entry, Expiration, Level, is_empty}
use faser.Timer.Level.Next.{empty_of}
use faser.Timer.Wheels.{
  Wheels, Firing, Sweep, sweep, conclude, advance, rounds, next_expiration, insert_all,
}
use faser.Timer.Wheels.Sums.{total, marks_le}
use faser.Timer.Wheels.Sound.{
  WheelsSound, EmptyBelow, IsFirst, next_expiration-IsFirst, none-before,
}
use faser.Timer.Wheels.Taking.{Lies-later}
use faser.Timer.Wheels.Settling.{Progress, Due, length, count_fired}
use faser.Timer.Wheels.Sweeping.{Swept, Upcoming, set_elapsed_lem, sweep_lem}
use faser.Timer.Wheels.Inserting.{Inserted, insert_all-Inserted}

-- Nothing in the wheel is due before `x`; without `x`, the wheel is empty.
abbrev pub Promises : Option Expiration → (ℕ → Level) → Type 0
Promises none ws = EmptyBelow num_levels ws
Promises (some x) ws =
    (i s : ℕ) → i < num_levels → s < 64 → All (λ e. x.deadline ≤ e.deadline) ((ws i).slots s)

-- What `advance now` makes of the wheel `w`: it fires entries that are due, as many as it returns;
-- the others are in the wheel, in order and all later than `now`; and the expiration that it
-- returns is after `now`, with no entry due before it.
pub record Advanced (now : ℕ) (w : Wheels) (fired : ℕ) (next : Option Expiration) (w' : Wheels)
    : Type 0 where
  pub firings : List Firing
  pub fired_since : w'.firings ≡ firings ++ w.firings
  pub counted : fired ≡ length firings
  pub due : All (Due now) firings
  pub kept : (q : Entry → Bool) → total q w.wheels ≡ count_fired q firings + total q w'.wheels
  pub elapsed : w'.elapsed ≡ now
  pub alive : w'.is_shutdown ≡ false
  pub sound : WheelsSound now w'.wheels
  pub later : (x : Expiration) → next ≡ some x → now < x.deadline
  pub promise : Promises next w'.wheels

start_le : (level : ℕ) (y : Entry) → slot_start level y.deadline ≤ y.deadline
start_le level y = div-mul-le_self y.deadline (slot_range level)

IsFirst-Promises :
    (elapsed : ℕ) (ws : ℕ → Level) (x : Expiration)
    → WheelsSound elapsed ws
    → IsFirst elapsed ws x
    → Promises (some x) ws
IsFirst-Promises elapsed ws x v f i s h k =
    All-map (λ e. x.deadline ≤ slot_start i e.deadline) (λ e. x.deadline ≤ e.deadline)
      (λ e m. omega (arith, start_le i e)) ((ws i).slots s) (none-before v f i s h k)

-- The wheel is in order at `now`, when its first expiration is after `now`.
not_begun :
    (now elapsed : ℕ) (ws : ℕ → Level) (next : Option Expiration)
    → WheelsSound elapsed ws
    → Upcoming now elapsed ws next
    → (i s : ℕ) → i < num_levels
    → s < 64
    → All (λ y. now < slot_start i y.deadline) ((ws i).slots s)
not_begun now elapsed ws next v (inl (e, empty)) i s h k =
    subst (All (λ y. now < slot_start i y.deadline)) (sym (empty i s h k)) tt
not_begun now elapsed ws next v (inr (x, e, later, f)) i s h k =
    All-map (λ y. x.deadline ≤ slot_start i y.deadline) (λ y. now < slot_start i y.deadline)
      (λ y m. omega arith) ((ws i).slots s) (none-before v f i s h k)

pub Upcoming-Sound :
    (now elapsed : ℕ) (ws : ℕ → Level) (next : Option Expiration)
    → elapsed ≤ now
    → WheelsSound elapsed ws
    → Upcoming now elapsed ws next
    → WheelsSound now ws
Upcoming-Sound now elapsed ws next h v u i k = record {
  numbered = (v i k).numbered;
  lies = λ s m.
      Lies-later i s ((ws i).slots s) h (not_begun now elapsed ws next v u i s k m)
        ((v i k).lies s m);
  marked = (v i k).marked;
}

Upcoming-Promises :
    (now elapsed : ℕ) (ws : ℕ → Level) (next : Option Expiration)
    → WheelsSound elapsed ws
    → Upcoming now elapsed ws next
    → ((x : Expiration) → next ≡ some x → now < x.deadline) × Promises next ws
Upcoming-Promises now elapsed ws next v (inl (e, empty)) = (λ x d. cc, rw e empty)
Upcoming-Promises now elapsed ws next v (inr (x, e, later, f)) =
    (λ y d. ground arith, rw e (IsFirst-Promises elapsed ws x v f))

-- The wheel once `conclude` has set the time.
abbrev timed : ℕ → Sweep → Wheels
timed now s = record (s.wheel) { elapsed = now }

Progress-Advanced :
    (now : ℕ) (w : Wheels) (s : Sweep) (next : Option Expiration) (w' : Wheels)
    → Progress now w [] s
    → Inserted s.pending (timed now s) w'
    → ((x : Expiration) → next ≡ some x → now < x.deadline)
    → Promises next w'.wheels
    → Advanced now w s.fired next w'
Progress-Advanced now w s next w' p n l m = record {
  firings = p.firings;
  fired_since = n.firings ∙ p.fired_since;
  counted = p.counted;
  due = p.due;
  kept = λ q. omega (arith, p.kept q, n.holds q);
  elapsed = n.elapsed;
  alive = n.alive ∙ p.alive;
  sound = subst (λ t. WheelsSound t w'.wheels) n.elapsed n.sound;
  later = l;
  promise = m;
}

-- From a wheel that is in order, `advance` comes to its end.
module _ (now : ℕ) (w : Wheels) (s : Sweep) (next : Option Expiration)
    (t : Swept now w s next) where
  abbrev concluded : Wheels
  concluded = insert_all s.pending (timed now s)

  timed-Sound : WheelsSound now s.wheel.wheels
  timed-Sound = Upcoming-Sound now s.wheel.elapsed s.wheel.wheels next t.elapsed t.sound t.upcoming

  concluded-Inserted : Inserted s.pending (timed now s) concluded
  concluded-Inserted =
      insert_all-Inserted s.pending (timed now s) t.progress.alive t.progress.fits timed-Sound

  Concludes : Type 0
  Concludes =
      (next' : Option Expiration) × (w' : Wheels) × (conclude now (s, next)
        ≡ done ((s.fired, next'), w'))
      × Advanced now w s.fired next' w'

  none_pending : s.pending ≡ [] → Concludes
  unfolding Concludes conclude insert_all
  none_pending e =
      let (l, m) = Upcoming-Promises now s.wheel.elapsed s.wheel.wheels next t.sound t.upcoming in
      let kept = subst (λ es. Promises next (insert_all es (timed now s)).wheels) (sym e) m in
      (
        next,
        concluded,
        rw (set_elapsed_lem now s.wheel t.elapsed, ap is_empty e) refl,
        Progress-Advanced now w s next concluded t.progress concluded-Inserted l kept,
      )

  some_pending : is_empty s.pending ≡ false → Concludes
  unfolding Concludes conclude
  some_pending e =
      let n = concluded-Inserted in
      let set = set_elapsed_lem now s.wheel t.elapsed in
      elim (next_expiration-IsFirst concluded n.sound) [
        | inl (stop, empty) ↦ (
          none,
          concluded,
          rw (set, e, stop) refl,
          Progress-Advanced now w s none concluded t.progress n (λ x d. cc) empty,
        )
        | inr (x, found, f) ↦ (
          some x,
          concluded,
          rw (set, e, found) refl,
          Progress-Advanced now w s (some x) concluded t.progress n
              (λ y d. ground (arith, n.elapsed, f.next.ahead))
              (IsFirst-Promises concluded.elapsed concluded.wheels x n.sound f),
        )
      ]

  conclude_lem : Concludes
  conclude_lem = elim (Bool-cases (is_empty s.pending)) [
    | inl e ↦ none_pending (empty_of s.pending e)
    | inr e ↦ some_pending e
  ]

-- From a wheel in order that is not shut down and not past `now`, `advance now` ends and does what
-- it is for: every firing that it adds is of an entry that is due and is for success, it returns
-- their number, fired and remaining entries together are those of the wheel before, the wheel
-- stands at `now` and in order, and the expiration returned is after `now` with no remaining entry
-- due before it (none is returned only from an empty wheel).
pub advance-Advanced :
    (now : ℕ) (w : Wheels)
    → WheelsSound w.elapsed w.wheels
    → w.is_shutdown ≡ false
    → w.elapsed ≤ now
    → (fired : ℕ) × (next : Option Expiration) × (w' : Wheels) × (advance now w
        ≡ done ((fired, next), w'))
      × Advanced now w fired next w'
unfolding advance Concludes
advance-Advanced now w v a h =
    let (s, next, r, t) =
      sweep_lem now w rounds start v h (omega (arith, marks_le w.wheels)) begun in
    let (next', w', c, m) = conclude_lem now w s next t in
    (
      s.fired,
      next',
      w',
      bind_assoc (next_expiration w) (λ o. sweep rounds now o start) (conclude now)
          ∙ ap (λ o. o >>= conclude now) r
          ∙ c,
      m,
    )
  where
    start : Sweep
    start = record { wheel = w; pending = []; fired = 0 }

    begun : Progress now w [] start
    begun = record {
      firings = [];
      fired_since = refl;
      counted = refl;
      due = tt;
      fits = tt;
      alive = a;
      kept = λ q. omega arith;
    }
