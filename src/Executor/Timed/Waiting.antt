-- ===== src/Executor/Timed/Waiting.antt =====
-- The states of `block_on` (norn-executor/src/lib.rs) while it has a `Sleep` for its root future, and how
-- it waits for it.
use native.Mathlib.Decide.{dec_le}
use faser.Prelude.{
  ℕ, ◌+◌, ◌/◌, ◌^◌, ◌≤◌, ◌<◌, ◌≡◌, ◌⊎◌, inl, inr, refl, sym, ◌∙◌, ap, subst, Bool, true, false, ltb,
  if◌then◌else◌, Option, none, some, List, ◌∷◌, done, ◌>>=◌, Ensures, Ensures-map, arith,
}
use faser.Task.Queue.{next}
use faser.Task.Queue
use faser.Timer.Wheels.{Completion, ok}
use faser.Timer.Driver.{nanos_per_milli, next_completion}
use faser.Timer.Sleep.{Sleep, unregistered, registered, fire}
use faser.Timer.Runtime.{Timers, poll, park}
use faser.Timer.Runtime.Owning.{InOrder}
use faser.Timer.Runtime.Ringing.{Rung, park-Rung}
use faser.Timer.Runtime.Starting.{millis}
use faser.Timer.Runtime.Polling.{Polled, Polled-InOrder, elapsed-poll, waker-poll}
use faser.Timer.Runtime.OnTime.{
  OnTime, Course, Course-Polled, Course-Rung, Course-OnTime, first-Course, first-OnTime,
}
use faser.Executor.{
  Phase, polling, running, finished, Executor, try_poll, run_next, happen, enter_park,
}
use faser.Executor
use faser.Executor.Timed.{Timed, poll_root, turn, rang, count, is_some}

-- The executor without tasks.
abbrev pub at : Bool → Phase → Bool → Timers → Timed
at b p i t = record {
  executor = record { taskqueue = Queue.new; poll_root = b; phase = p; interrupted = i };
  timers = t;
}

pub poll_notified :
    (i : Bool) (t : Timers)
    → poll_root (at true polling i t) ≡ (
        poll 0 0 t >>= λ r.
        done (r.0, at false (if is_some r.0 then finished else running) false r.1))
unfolding poll_root try_poll happen Queue.acts
poll_notified i t = refl

pub poll_quiet :
    (i : Bool) (t : Timers)
    → poll_root (at false polling i t) ≡ done (none, at false running false t)
unfolding poll_root try_poll happen Queue.acts
poll_quiet i t = refl

turn_lem :
    (n : ℕ) (t : Timers)
    → turn n (at false running false t) ≡ (
        park n next_completion t >>= λ r.
        done (at (if rang t r.1 then true else false) polling false r.1))
unfolding turn run_next next Executor.park happen Queue.acts Queue.new
turn_lem n t = refl

-- The sleep has not been polled yet, or is on its course to tick `d`.
abbrev pub Bound : ℕ → Timers → Type 0
Bound d t =
    (((t.sleeps 0).state ≡ unregistered)
      × (t.wheels.is_shutdown ≡ false)
      × (d ≡ t.wheels.elapsed + millis 0 t))
    ⊎ Course 0 d t

-- The sleep waits for tick `d` and will wake the root future.
pub record Pending (d : ℕ) (t : Timers) : Type 0 where
  pub order : InOrder t
  pub course : Course 0 d t
  pub early : t.wheels.elapsed < d
  pub waker : (t.sleeps 0).waker ≡ some 0

pub record Polls (d : ℕ) (t : Timers) (r : Option Completion × Timers) : Type 0 where
  pub order : InOrder r.1
  pub course : Course 0 d r.1
  pub elapsed : r.1.wheels.elapsed ≡ t.wheels.elapsed
  pub answer : OnTime d r
  pub waker : r.0 ≡ none → (r.1.sleeps 0).waker ≡ some 0

pub Polled-Polls :
    (d : ℕ) (t : Timers) (r : Option Completion × Timers) → Bound d t → Polled 0 0 t r → Polls d t r
Polled-Polls d t r (inr c) p = record {
  order = Polled-InOrder 0 0 t r p;
  course = Course-Polled 0 0 0 d t r p c;
  elapsed = elapsed-poll 0 0 t r p;
  answer = Course-OnTime 0 0 d t r p c;
  waker = waker-poll 0 0 t r p;
}
Polled-Polls d t r (inl (u, s, e)) p = record {
  order = Polled-InOrder 0 0 t r p;
  course = subst (λ n. Course 0 n r.1) (sym e) (first-Course 0 0 t r u s p);
  elapsed = elapsed-poll 0 0 t r p;
  answer = subst (λ n. OnTime n r) (sym e) (first-OnTime 0 0 t r u s p);
  waker = waker-poll 0 0 t r p;
}

-- The next poll will be made, or the sleep is pending and the root future was not woken.
abbrev pub Awaits : ℕ → Timed → Type 0
Awaits d s =
    ((i : Bool) × (s ≡ at true polling i s.timers) × Bound d s.timers × InOrder s.timers)
    ⊎ ((i : Bool) × (s ≡ at false polling i s.timers) × Pending d s.timers)

count_more : (k : ℕ) (ks : List ℕ) → ltb (count ks) (count (k ∷ ks)) ≡ true
count_more k ks = ground arith

count_same : (ks : List ℕ) → ltb (count ks) (count ks) ≡ false
count_same ks = ground arith

fire_woken : (s : Sleep) → s.waker ≡ some 0 → (fire ok s).woken ≡ 0 ∷ s.woken
unfolding fire
fire_woken s e = rw e refl

rang-true : (t t' : Timers) → (t'.sleeps 0).woken ≡ 0 ∷ (t.sleeps 0).woken → rang t t' ≡ true
rang-true t t' e = rw e (count_more 0 ((t.sleeps 0).woken))

rang-false : (t t' : Timers) → (t'.sleeps 0).woken ≡ (t.sleeps 0).woken → rang t t' ≡ false
rang-false t t' e = rw e (count_same ((t.sleeps 0).woken))

-- The state after a park.
abbrev parked_at : Timers → Timers → Timed
parked_at t t' = at (if rang t t' then true else false) polling false t'

module _ (d ticks : ℕ) (t t' : Timers) (p : Pending d t) (h : t.wheels.elapsed ≤ ticks)
    (q : Rung ticks t t') (o : InOrder t') where
  course : Course 0 d t'
  course = Course-Rung 0 d ticks t t' h q p.course

  woken :
      d ≤ ticks
      → (t.sleeps 0).state ≡ registered
      → (t.sleeps 0).deadline ≡ d
      → Awaits d (parked_at t t')
  woken m s e =
      let f = q.rings 0 s (omega (arith, e)) in
      let r = rang-true t t' (ap (λ u. u.woken) f ∙ fire_woken (t.sleeps 0) p.waker) in
      rw r (inl (false, refl, inr course, o))

  waits : ticks < d → (t.sleeps 0).deadline ≡ d → Awaits d (parked_at t t')
  waits m e =
      let f = q.waits 0 (inr (omega (arith, e))) in
      let r = rang-false t t' (ap (λ u. u.woken) f) in
      rw r (
        inr (
          false,
          refl,
          record {
            order = o;
            course = course;
            early = omega (arith, q.elapsed);
            waker = ap (λ u. u.waker) f ∙ p.waker;
          },
        ))

  parked-Awaits : Awaits d (parked_at t t')
  parked-Awaits = elim p.course.stands [
    | inl (l, s, e) ↦ elim (dec_le d ticks) [ yes m ↦ woken m s e | no m ↦ waits (omega arith) e ]
    | inr (l, s, e) ↦ absurd (omega (arith, p.early))
  ]

-- A park wakes the root future exactly if the sleep is over.
pub turned :
    (d n : ℕ) (t : Timers)
    → Pending d t
    → t.wheels.elapsed ≤ n / nanos_per_milli
    → n / nanos_per_milli < 2 ^ 63
    → Ensures
        (λ s. Awaits d s × (s.timers.wheels.elapsed ≡ n / nanos_per_milli))
        (turn n (at false running false t))
turned d n t p h b = rw (turn_lem n t) (
    Ensures-map _ (λ s. Awaits d s × (s.timers.wheels.elapsed ≡ n / nanos_per_milli))
      (λ r. done (parked_at t r.1)) (park n next_completion t)
      (λ r (q, o, _). (parked-Awaits d (n / nanos_per_milli) t r.1 p h q o, q.elapsed))
      (park-Rung n next_completion t p.order h b))
