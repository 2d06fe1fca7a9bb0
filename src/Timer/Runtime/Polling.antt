-- ===== src/Timer/Runtime/Polling.antt =====
-- Every call of norn-timer keeps the timers in order.
use faser.Prelude.{
  ℕ, ◌/◌, ◌^◌, ◌<◌, ◌≤◌, ◌≡◌, ◌≢◌, refl, sym, ◌∙◌, ap, subst, false, count_if, ◌⊎◌, inl, inr, done,
  arith, ◌>>=◌, Ensures, Ensures-map, Ensures-weaken, Option, none, some,
}
use faser.Timer.Bits.{update, update_self, update_other}
use faser.Timer.Wheels.{Completion, ok}
use faser.Timer.Driver.{nanos_per_milli}
use faser.Timer.Sleep.{SleepState, Sleep, unregistered, registered, fired, is_registered, settled}
use faser.Timer.Sleep
use faser.Timer.Runtime.{
  Timers, begin, answer, poll, poll_in, drop, reset, forget, park, shutdown, Action, polls, drops,
  resets, parks, shuts, perform,
}
use faser.Timer.Wheels.Sums.{total}
use faser.Timer.Runtime.Finding.{stale}
use faser.Timer.Runtime.Holding.{update-Holds, total-stale}
use faser.Timer.Runtime.Owning.{InOrder}
use faser.Timer.Runtime.Ringing.{park-Rung, shutdown-Silenced}
use faser.Timer.Runtime.Leaving.{Apart, drop-Dropped}
use faser.Timer.Runtime.Starting.{Begun, Started, at_once, refused, waiting, begin-Begun}

-- What a poll of a sleep in this state answers, and what it leaves.
abbrev pub Answer : SleepState → ℕ → Sleep → Option Completion → Sleep → Type 0
Answer unregistered k s o s' = ⊥
Answer registered k s o s' = (o ≡ none) × (s' ≡ record s { waker = some k })
Answer fired k s o s' = (o ≡ some s.complete) × (s' ≡ record s { complete = ok })

pub record Answered (i k : ℕ) (t : Timers) (o : Option Completion) (t' : Timers) : Type 0 where
  pub apart : Apart i t t'
  pub here : Answer ((t.sleeps i).state) k (t.sleeps i) o (t'.sleeps i)
  pub inv : InOrder t'

answered :
    (x y : SleepState) (k : ℕ) (s u w : Sleep) (o : Option Completion)
    → x ≡ y
    → w ≡ u
    → Answer y k s o u
    → Answer x k s o w
answered x y k s u w o p q a =
    subst (λ z. Answer z k s o w) (sym p) (subst (Answer y k s o) (sym q) a)

module _ (i : ℕ) (t : Timers) (v : InOrder t) where
  -- The sleep is changed, but not where it is registered and for when.
  touched-InOrder :
      (s : Sleep)
      → is_registered s.state ≡ is_registered ((t.sleeps i).state)
      → total (stale i s.deadline) t.wheels.wheels ≡ 0
      → InOrder (record t { sleeps = update t.sleeps i s })
  touched-InOrder s e d = record {
    sound = v.sound;
    holds =
        update-Holds i s t.wheels.wheels t.wheels.wheels t.sleeps v.holds (λ j h. refl)
          (λ j h. refl) (v.holds.held i ∙ sym (ap count_if e)) d;
    delivered = v.delivered;
    stopped = v.stopped;
    in_time = v.in_time;
    near = v.near;
  }

  touched-Apart : (s : Sleep) → Apart i t (record t { sleeps = update t.sleeps i s })
  touched-Apart s = record {
    elapsed = refl;
    same = refl;
    duration = refl;
    others = λ j h. update_other t.sleeps i s j h;
  }

  answer_by :
      (k : ℕ) (s : SleepState)
      → s ≢ unregistered
      → (t.sleeps i).state ≡ s
      → Ensures
          (λ (r : Option Completion × Timers). Answered i k t r.0 r.1)
          (settled s k (t.sleeps i) >>= λ r.
            done (r.0, record t { sleeps = update t.sleeps i r.1 }))
  unfolding settled
  answer_by k unregistered h e = absurd (h refl)
  answer_by k registered h e =
      let s = record (t.sleeps i) { waker = some k } in
      record {
        apart = touched-Apart s;
        here = answered _ _ k _ s _ _ e (update_self t.sleeps i s) (refl, refl);
        inv = touched-InOrder s refl (v.holds.dated i);
      }
  answer_by k fired h e =
      let s = record (t.sleeps i) { complete = ok } in
      record {
        apart = touched-Apart s;
        here = answered _ _ k _ s _ _ e (update_self t.sleeps i s) (refl, refl);
        inv = touched-InOrder s refl (v.holds.dated i);
      }

  pub answer-Answered :
      (k : ℕ)
      → (t.sleeps i).state ≢ unregistered
      → Ensures (λ (r : Option Completion × Timers). Answered i k t r.0 r.1) (answer i k t)
  unfolding answer
  answer-Answered k h = answer_by k ((t.sleeps i).state) h refl

-- A poll starts a new sleep first.
abbrev pub Polled : ℕ → ℕ → Timers → Option Completion × Timers → Type 0
Polled i k t r =
    (((t.sleeps i).state ≡ unregistered) × ((t' : Timers) × Begun i t t' × Answered i k t' r.0 r.1))
    ⊎ (((t.sleeps i).state ≢ unregistered) × Answered i k t r.0 r.1)

Started-known : (i : ℕ) (t : Timers) (s : Sleep) → Started i t s → s.state ≢ unregistered
Started-known i t s (at_once m e c) = λ h. cc
Started-known i t s (refused m e c) = λ h. cc
Started-known i t s (waiting m a e d) = λ h. cc

poll_by :
    (i k : ℕ) (t : Timers) (s : SleepState)
    → InOrder t
    → (t.sleeps i).state ≡ s
    → Ensures (Polled i k t) (poll_in s i k t)
poll_by i k t unregistered v e =
    Ensures-map (λ t'. Begun i t t' × InOrder t') (Polled i k t) (answer i k) (begin i t)
      (λ t' b.
        Ensures-weaken (λ (r : Option Completion × Timers). Answered i k t' r.0 r.1) (Polled i k t)
          (answer i k t') (λ r a. inl (e, (t', b.0, a)))
          (answer-Answered i t' b.1 k (Started-known i t (t'.sleeps i) (b.0).started)))
      (begin-Begun i t v e)
poll_by i k t registered v e =
    Ensures-weaken (λ (r : Option Completion × Timers). Answered i k t r.0 r.1) (Polled i k t)
      (answer i k t) (λ r a. inr (λ h. cc, a)) (answer-Answered i t v k (λ h. cc))
poll_by i k t fired v e =
    Ensures-weaken (λ (r : Option Completion × Timers). Answered i k t r.0 r.1) (Polled i k t)
      (answer i k t) (λ r a. inr (λ h. cc, a)) (answer-Answered i t v k (λ h. cc))

pub poll-Polled : (i k : ℕ) (t : Timers) → InOrder t → Ensures (Polled i k t) (poll i k t)
unfolding poll
poll-Polled i k t v = poll_by i k t ((t.sleeps i).state) v refl

pub Polled-InOrder :
    (i k : ℕ) (t : Timers) (r : Option Completion × Timers) → Polled i k t r → InOrder r.1
Polled-InOrder i k t r (inl (e, (t', b, a))) = a.inv
Polled-InOrder i k t r (inr (e, a)) = a.inv

-- No time passes in a poll.
pub elapsed-poll :
    (i k : ℕ) (t : Timers) (r : Option Completion × Timers)
    → Polled i k t r
    → r.1.wheels.elapsed ≡ t.wheels.elapsed
elapsed-poll i k t r (inl (_, (t', b, a))) = (a.apart).elapsed ∙ (b.apart).elapsed
elapsed-poll i k t r (inr (_, a)) = (a.apart).elapsed

Answer-waker :
    (x : SleepState) (k : ℕ) (s s' : Sleep) (o : Option Completion)
    → Answer x k s o s'
    → o ≡ none
    → s'.waker ≡ some k
Answer-waker unregistered k s s' o a e = absurd a
Answer-waker registered k s s' o a e = ap (λ u. u.waker) a.1
Answer-waker fired k s s' o a e = cc (a.0)

-- A poll that is pending leaves its waker.
pub waker-poll :
    (i k : ℕ) (t : Timers) (r : Option Completion × Timers)
    → Polled i k t r
    → r.0 ≡ none
    → (r.1.sleeps i).waker ≡ some k
waker-poll i k t r (inl (_, (t', b, a))) e =
    Answer-waker ((t'.sleeps i).state) k (t'.sleeps i) (r.1.sleeps i) r.0 a.here e
waker-poll i k t r (inr (_, a)) e =
    Answer-waker ((t.sleeps i).state) k (t.sleeps i) (r.1.sleeps i) r.0 a.here e

-- What callers may do: a sleep is not reset while it is registered, and the clock does not go back,
-- nor up to half of a `u64`.
abbrev pub Allowed : Action → Timers → Type 0
Allowed (polls i k) t = Unit
Allowed (drops i) t = Unit
Allowed (resets i) t = (t.sleeps i).state ≢ registered
Allowed (parks nanos mode) t =
    (t.wheels.elapsed ≤ nanos / nanos_per_milli) × (nanos / nanos_per_milli < 2 ^ 63)
Allowed shuts t = Unit

reset_lem :
    (s : Sleep)
    → is_registered s.state ≡ false
    → Sleep.reset s ≡ done (record s { complete = ok; deadline = 0; waker = none })
unfolding Sleep.reset
reset_lem s e = rw e refl

module _ (i : ℕ) (t : Timers) (v : InOrder t) (e : is_registered ((t.sleeps i).state) ≡ false) where
  abbrev cleared : Sleep
  cleared = record (t.sleeps i) { complete = ok; deadline = 0; waker = none }

  cleared-InOrder : InOrder (record t { sleeps = update t.sleeps i cleared })
  cleared-InOrder =
      touched-InOrder i t v cleared refl
        (omega (arith, total-stale i 0 t.wheels.wheels, v.holds.held i, ap count_if e))

  unlinked_reset :
      Ensures
        (λ t'. Apart i t t' × InOrder t')
        (Sleep.reset (t.sleeps i) >>= λ u. done (record t { sleeps = update t.sleeps i u }))
  unlinked_reset = rw (reset_lem (t.sleeps i) e) (touched-Apart i t v cleared, cleared-InOrder)

reset_by :
    (i : ℕ) (t : Timers) (s : SleepState)
    → InOrder t
    → s ≢ registered
    → (t.sleeps i).state ≡ s
    → Ensures
        (λ t'. Apart i t t' × InOrder t')
        (forget s i t >>= λ t'.
          Sleep.reset (t'.sleeps i) >>= λ u. done (record t' { sleeps = update t'.sleeps i u }))
reset_by i t unregistered v h e = unlinked_reset i t v (ap is_registered e)
reset_by i t fired v h e = unlinked_reset i t v (ap is_registered e)
reset_by i t registered v h e = absurd (h refl)

pub reset-Apart :
    (i : ℕ) (t : Timers)
    → InOrder t
    → (t.sleeps i).state ≢ registered
    → Ensures (λ t'. Apart i t t' × InOrder t') (reset i t)
unfolding reset
reset-Apart i t v h = reset_by i t ((t.sleeps i).state) v h refl

-- Timers in order stay so, and nothing panics, at every call: the poll, drop and reset of a sleep
-- (a reset of one that is not registered), a park (at a tick not before the present one and less
-- than 2^63) and the shutdown. In order means that the wheel is sound, holds exactly one entry for
-- each registered sleep, with its deadline, and none for another, and nothing once it is shut
-- down; that all firings have reached their sleeps; that the tick is less than 2^63; and that no
-- duration is over 63 * 2^30 ms.
pub perform-InOrder :
    (a : Action) (t : Timers) → InOrder t → Allowed a t → Ensures InOrder (perform a t)
unfolding perform
perform-InOrder (polls i k) t v h =
    Ensures-map (Polled i k t) InOrder (λ r. done r.1) (poll i k t) (Polled-InOrder i k t)
      (poll-Polled i k t v)
perform-InOrder (drops i) t v h =
    Ensures-weaken _ InOrder (drop i t) (λ t' d. d.1) (drop-Dropped i t v)
perform-InOrder (resets i) t v h =
    Ensures-weaken _ InOrder (reset i t) (λ t' d. d.1) (reset-Apart i t v h)
perform-InOrder (parks nanos mode) t v h =
    Ensures-map _ InOrder (λ r. done r.1) (park nanos mode t) (λ r p. p.1)
      (park-Rung nanos mode t v h.0 h.1)
perform-InOrder shuts t v h =
    Ensures-weaken _ InOrder (shutdown t) (λ t' d. d.1) (shutdown-Silenced t v)
