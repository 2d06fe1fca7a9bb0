-- ===== src/Executor/Timed/Returning.antt =====
-- `block_on` (norn-executor/src/lib.rs) of a `Sleep` returns when the sleep is over.
use faser.Prelude.{
  ℕ, ◌+◌, ◌/◌, ◌^◌, ◌≤◌, ◌<◌, ◌≡◌, ◌⊎◌, inl, inr, refl, sym, ap, subst, Bool, true, false, ◌||◌,
  leb, if◌then◌else◌, Option, none, some, List, [], ◌∷◌, done, ◌>>=◌, Ensures, Ensures-map,
  Ensures-weaken, arith,
}
use faser.Timer.Wheels.{Completion, ok}
use faser.Timer.Driver.{nanos_per_milli}
use faser.Timer.Sleep.{unregistered}
use faser.Timer.Runtime.{Timers, poll}
use faser.Timer.Runtime.Owning.{InOrder}
use faser.Timer.Runtime.Starting.{millis}
use faser.Timer.Runtime.Polling.{Polled, poll-Polled}
use faser.Executor.{
  Phase, polling, running, finished, Executor, try_poll, run_next, happen, enter_park,
}
use faser.Executor
use faser.Executor.Timed.Waiting.{
  at, Bound, Pending, Polls, Awaits, poll_notified, poll_quiet, Polled-Polls, turned,
}
use faser.Executor.Timed.{Timed, start, poll_root, turn, rounds, is_some}

-- The instants at which the parks begin, from the tick `now` on: the clock does not go back, and stays below 2^63.
abbrev pub Times : ℕ → List ℕ → Type 0
Times now [] = Unit
Times now (n ∷ ns) =
    (now ≤ n / nanos_per_milli) × (n / nanos_per_milli < 2 ^ 63) × Times (n / nanos_per_milli) ns

-- If the tick `d` has come at `now` or at one of the instants.
abbrev pub comes : ℕ → ℕ → List ℕ → Bool
comes d now [] = leb d now
comes d now (n ∷ ns) = leb d now || comes d (n / nanos_per_milli) ns

-- `block_on` has returned with success if the tick has come, and is pending otherwise.
abbrev pub Returns : Bool → Option Completion × Timed → Type 0
Returns b r = r.0 ≡ (if b then some ok else none)

-- What the poll of the root future leaves: the answer, or a pending sleep.
abbrev Asked : ℕ → ℕ → Option Completion × Timed → Type 0
Asked d now r =
    ((r.0 ≡ some ok) × (d ≤ now))
    ⊎ ((r.0 ≡ none)
        × (r.1 ≡ at false running false r.1.timers)
        × Pending d r.1.timers
        × (r.1.timers.wheels.elapsed ≡ now))

asked :
    (d : ℕ) (i : Bool) (t : Timers)
    → Bound d t
    → InOrder t
    → Ensures (Asked d t.wheels.elapsed) (poll_root (at true polling i t))
asked d i t b o = rw (poll_notified i t) (
    Ensures-map (Polled 0 0 t) (Asked d t.wheels.elapsed)
      (λ r. done (r.0, at false (if is_some r.0 then finished else running) false r.1)) (poll 0 0 t)
      (λ r p. answered r (Polled-Polls d t r b p)) (poll-Polled 0 0 t o))
  where
    answered :
        (r : Option Completion × Timers)
        → Polls d t r
        → Asked d t.wheels.elapsed
            (r.0, at false (if is_some r.0 then finished else running) false r.1)
    answered r p = elim p.answer [
      | inl (n, l) ↦
          let running_on =
            ap (λ x. at false (if is_some x then finished else running) false r.1) n in
          inr (
            n,
            running_on,
            record { order = p.order; course = p.course; early = l; waker = p.waker n },
            p.elapsed,
          )
      | inr (s, l) ↦ inl (s, omega (arith, p.elapsed))
    ]

awaited : (d : ℕ) (s : Timed) → Awaits d s → Ensures (Asked d s.timers.wheels.elapsed) (poll_root s)
awaited d s (inl (i, e, b, o)) =
    subst (λ u. Ensures (Asked d s.timers.wheels.elapsed) (poll_root u)) (sym e)
      (asked d i s.timers b o)
awaited d s (inr (i, e, p)) =
    subst (λ u. Ensures (Asked d s.timers.wheels.elapsed) (poll_root u)) (sym e)
      (rw (poll_quiet i s.timers) (inr (refl, refl, p, refl)))

last-Asked : (d now : ℕ) (r : Option Completion × Timed) → Asked d now r → Returns (leb d now) r
last-Asked d now r (inl (e, l)) = let come : leb d now ≡ true = ground arith in rw come e
last-Asked d now r (inr (e, _, p, t)) =
    let early : leb d now ≡ false = ground (arith, p.early) in rw early e

-- After a poll that is pending comes a park, and another round.
turn-Pending :
    (d now n : ℕ) (u : Timed)
    → u ≡ at false running false u.timers
    → Pending d u.timers
    → u.timers.wheels.elapsed ≡ now
    → now ≤ n / nanos_per_milli
    → n / nanos_per_milli < 2 ^ 63
    → Ensures (λ s. Awaits d s × (s.timers.wheels.elapsed ≡ n / nanos_per_milli)) (turn n u)
turn-Pending d now n u e p t h b =
    subst
      (λ v. Ensures (λ s. Awaits d s × (s.timers.wheels.elapsed ≡ n / nanos_per_milli)) (turn n v))
      (sym e) (turned d n u.timers p (omega (arith, t)) b)

-- A round, when the rounds for the later instants are known.
module _ (d now n : ℕ) (ns : List ℕ) (h : Times now (n ∷ ns))
    (later : (s : Timed)
      → Awaits d s
      → Times s.timers.wheels.elapsed ns
      → Ensures (Returns (comes d s.timers.wheels.elapsed ns)) (rounds ns s)) where
  next_round :
      (u : Timed)
      → Awaits d u × (u.timers.wheels.elapsed ≡ n / nanos_per_milli)
      → Ensures (Returns (comes d (n / nanos_per_milli) ns)) (rounds ns u)
  next_round u (b, t) =
      subst (λ m. Ensures (Returns (comes d m ns)) (rounds ns u)) t
        (later u b (subst (λ m. Times m ns) (sym t) h.2))

  continue :
      (r : Option Completion × Timed)
      → Asked d now r
      → Ensures
          (Returns (comes d now (n ∷ ns)))
          (elim r.0 [ some c ↦ done r | none ↦ turn n r.1 >>= rounds ns ])
  continue (some c, u) (inl (e, l)) = let come : leb d now ≡ true = ground arith in rw come e
  continue (some c, u) (inr (e, _, _, _)) = absurd (cc)
  continue (none, u) (inl (e, l)) = absurd (cc)
  continue (none, u) (inr (e, m, p, t)) =
      let early : leb d now ≡ false = ground (arith, p.early, t) in
      rw early (
        Ensures-map _ (Returns (comes d (n / nanos_per_milli) ns)) (rounds ns) (turn n u) next_round
          (turn-Pending d now n u m p t h.0 h.1))

rounds-Returns :
    (d : ℕ) (ns : List ℕ) (s : Timed)
    → Awaits d s
    → Times s.timers.wheels.elapsed ns
    → Ensures (Returns (comes d s.timers.wheels.elapsed ns)) (rounds ns s)
unfolding rounds
rounds-Returns d [] s a h =
    Ensures-weaken (Asked d s.timers.wheels.elapsed) (Returns (leb d s.timers.wheels.elapsed))
      (poll_root s) (last-Asked d s.timers.wheels.elapsed) (awaited d s a)
rounds-Returns d (n ∷ ns) s a h =
    Ensures-map (Asked d s.timers.wheels.elapsed)
      (Returns (comes d s.timers.wheels.elapsed (n ∷ ns)))
      (λ r. elim r.0 [ some c ↦ done r | none ↦ turn n r.1 >>= rounds ns ]) (poll_root s)
      (continue d s.timers.wheels.elapsed n ns h (λ u b k. rounds-Returns d ns u b k))
      (awaited d s a)

-- `block_on` of a new `Sleep`, with no other task, on timers in order that run: whatever instants
-- the clock shows when the parks begin, where `Driver::park` reads it (not going back, at ticks
-- below 2^63), no step panics, and after these parks the root future has returned with success if
-- one of the ticks read, or the tick of the wheel at the start, has reached the tick at the start
-- plus the milliseconds of the duration, and is pending otherwise. The time that passes within a
-- park counts only from the next reading of the clock.
pub block_on-Returns :
    (ns : List ℕ) (t : Timers)
    → InOrder t
    → (t.sleeps 0).state ≡ unregistered
    → t.wheels.is_shutdown ≡ false
    → Times t.wheels.elapsed ns
    → Ensures
        (Returns (comes (t.wheels.elapsed + millis 0 t) t.wheels.elapsed ns))
        (rounds ns (start t))
unfolding start Executor.block_on
block_on-Returns ns t o u s h =
    rounds-Returns (t.wheels.elapsed + millis 0 t) ns (start t)
      (inl (false, refl, inl (u, s, refl), o)) h
