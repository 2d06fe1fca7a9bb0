-- ===== src/Timer/Runtime/OnTime.antt =====
-- A `Sleep` of norn-timer rings on time, whatever else happens to the timers in between.
use native.Mathlib.Decide.{ℕ_discrete, dec_le}
use faser.Prelude.{
  ℕ, ◌+◌, ◌/◌, ◌<◌, ◌≤◌, ◌≡◌, ◌≢◌, ◌⊎◌, inl, inr, refl, sym, ◌∙◌, ap, subst, false, done, arith,
  ◌>>=◌, Ensures, Ensures-map, Ensures-weaken, Ensures-both, Option, none, some, List, [], ◌∷◌,
  Outcome,
}
use faser.Timer.Wheels.{Completion, ok}
use faser.Timer.Driver.{nanos_per_milli}
use faser.Timer.Sleep.{Sleep, unregistered, registered, fired, fire}
use faser.Timer.Runtime.{
  Timers, poll, drop, reset, park, Action, polls, drops, resets, parks, shuts, perform, run,
}
use faser.Timer.Runtime.Owning.{InOrder}
use faser.Timer.Runtime.Ringing.{Rung, park-Rung}
use faser.Timer.Runtime.Leaving.{Apart, drop-Dropped}
use faser.Timer.Runtime.Starting.{Started, at_once, refused, waiting, millis}
use faser.Timer.Runtime.Polling.{
  Answer, Answered, Polled, poll-Polled, Polled-InOrder, reset-Apart, Allowed, perform-InOrder,
}

-- The sleep `i` waits for the tick `d` until it comes, and has rung from then on; the driver runs.
abbrev pub Stands : ℕ → ℕ → Sleep → Type 0
Stands d now s =
    ((now < d) × (s.state ≡ registered) × (s.deadline ≡ d))
    ⊎ ((d ≤ now) × (s.state ≡ fired) × (s.complete ≡ ok))

pub record Course (i d : ℕ) (t : Timers) : Type 0 where
  pub runs : t.wheels.is_shutdown ≡ false
  pub stands : Stands d t.wheels.elapsed (t.sleeps i)

-- What leaves the sleep `i` to itself: it is neither dropped nor reset, and the driver not shut down.
abbrev pub Leaves : ℕ → Action → Type 0
Leaves i (polls j k) = Unit
Leaves i (drops j) = i ≢ j
Leaves i (resets j) = i ≢ j
Leaves i (parks nanos mode) = Unit
Leaves i shuts = ⊥

Course-Apart : (i j d : ℕ) (t t' : Timers) → i ≢ j → Apart j t t' → Course i d t → Course i d t'
Course-Apart i j d t t' h a c = record {
  runs = a.same ∙ c.runs;
  stands =
      subst (λ n. Stands d n (t'.sleeps i)) (sym a.elapsed)
        (subst (Stands d t.wheels.elapsed) (sym (a.others i h)) c.stands);
}

answer-Stands :
    (k d now : ℕ) (s s' : Sleep) (o : Option Completion)
    → Answer s.state k s o s'
    → Stands d now s
    → Stands d now s'
answer-Stands k d now s s' o a (inl (l, r, e)) =
    let (_, q) = subst (λ x. Answer x k s o s') r a in
    inl (l, ap (λ u. u.state) q ∙ r, ap (λ u. u.deadline) q ∙ e)
answer-Stands k d now s s' o a (inr (l, r, e)) =
    let (_, q) = subst (λ x. Answer x k s o s') r a in
    inr (l, ap (λ u. u.state) q ∙ r, ap (λ u. u.complete) q)

-- A poll of the sleep itself.
Course-Answered :
    (i k d : ℕ) (t : Timers) (o : Option Completion) (t' : Timers)
    → Answered i k t o t'
    → Course i d t
    → Course i d t'
Course-Answered i k d t o t' a c = record {
  runs = (a.apart).same ∙ c.runs;
  stands =
      subst (λ n. Stands d n (t'.sleeps i)) (sym (a.apart).elapsed)
        (answer-Stands k d t.wheels.elapsed (t.sleeps i) (t'.sleeps i) o a.here c.stands);
}

known : (d now : ℕ) (s : Sleep) → Stands d now s → s.state ≢ unregistered
known d now s (inl (l, r, e)) = λ h. cc
known d now s (inr (l, r, e)) = λ h. cc

pub Course-Polled :
    (i j k d : ℕ) (t : Timers) (r : Option Completion × Timers)
    → Polled j k t r
    → Course i d t
    → Course i d r.1
Course-Polled i j k d t r p c = elim (ℕ_discrete i j) [
  | yes e ↦ elim (subst (λ n. Polled n k t r) (sym e) p) [
    | inl (u, _) ↦ absurd (known d t.wheels.elapsed (t.sleeps i) c.stands u)
    | inr (_, a) ↦ Course-Answered i k d t r.0 r.1 a c
  ]
  | no h ↦ elim p [
    | inl (_, (t', b, a)) ↦
        Course-Apart i j d t' r.1 h a.apart (Course-Apart i j d t t' h b.apart c)
    | inr (_, a) ↦ Course-Apart i j d t r.1 h a.apart c
  ]
]

pub Course-Rung :
    (i d ticks : ℕ) (t t' : Timers)
    → t.wheels.elapsed ≤ ticks
    → Rung ticks t t'
    → Course i d t
    → Course i d t'
unfolding fire
Course-Rung i d ticks t t' h r c = record {
  runs = r.same ∙ c.runs;
  stands = elim c.stands [
    | inl (l, s, e) ↦ elim (dec_le d ticks) [
      | yes m ↦
          let q = r.rings i s (omega (arith, e)) in
          inr (omega (arith, r.elapsed), ap (λ u. u.state) q, ap (λ u. u.complete) q)
      | no m ↦
          let q = r.waits i (inr (omega (arith, e))) in
          inl (omega (arith, r.elapsed), ap (λ u. u.state) q ∙ s, ap (λ u. u.deadline) q ∙ e)
    ]
    | inr (l, s, e) ↦
        let q = r.waits i (inl (λ u. cc)) in
        inr (omega (arith, r.elapsed), ap (λ u. u.state) q ∙ s, ap (λ u. u.complete) q ∙ e)
  ];
}

perform-Course :
    (a : Action) (i d : ℕ) (t : Timers)
    → InOrder t
    → Allowed a t
    → Leaves i a
    → Course i d t
    → Ensures (Course i d) (perform a t)
unfolding perform
perform-Course (polls j k) i d t v h l c =
    Ensures-map (Polled j k t) (Course i d) (λ r. done r.1) (poll j k t)
      (λ r p. Course-Polled i j k d t r p c) (poll-Polled j k t v)
perform-Course (drops j) i d t v h l c =
    Ensures-weaken _ (Course i d) (drop j t) (λ t' p. Course-Apart i j d t t' l (p.0).apart c)
      (drop-Dropped j t v)
perform-Course (resets j) i d t v h l c =
    Ensures-weaken _ (Course i d) (reset j t) (λ t' p. Course-Apart i j d t t' l p.0 c)
      (reset-Apart j t v h)
perform-Course (parks nanos mode) i d t v h l c =
    Ensures-map _ (Course i d) (λ r. done r.1) (park nanos mode t)
      (λ r p. Course-Rung i d (nanos / nanos_per_milli) t r.1 h.0 p.0 c)
      (park-Rung nanos mode t v h.0 h.1)
perform-Course shuts i d t v h l c = absurd l

-- Each call is allowed where it is made, and leaves the sleep `i` to itself.
abbrev pub AllLeave : ℕ → List Action → Timers → Type 0
AllLeave i [] t = Unit
AllLeave i (a ∷ more) t =
    Allowed a t × Leaves i a × ((t' : Timers) → perform a t ≡ done t' → AllLeave i more t')

pub Ensures-known :
    {A : Type 0} (P Q : A → Type 0) (m : Outcome A)
    → ((a : A) → m ≡ done a → P a → Q a)
    → Ensures P m
    → Ensures Q m
Ensures-known P Q (done a) f p = f a refl p
Ensures-known P Q Outcome.panic f p = absurd p
Ensures-known P Q Outcome.fault f p = absurd p
Ensures-known P Q Outcome.no_fuel f p = absurd p

run-Course :
    (more : List Action) (i d : ℕ) (t : Timers)
    → InOrder t
    → AllLeave i more t
    → Course i d t
    → Ensures (λ t'. InOrder t' × Course i d t') (run more t)
unfolding run
run-Course [] i d t v h c = (v, c)
run-Course (a ∷ more) i d t v h c =
    Ensures-map (λ t'. InOrder t' × Course i d t' × AllLeave i more t')
      (λ t'. InOrder t' × Course i d t') (run more) (perform a t)
      (λ t' p. run-Course more i d t' p.0 p.2 p.1)
      (Ensures-known (λ t'. InOrder t' × Course i d t') _ (perform a t)
        (λ t' e p. (p.0, p.1, h.2 t' e))
        (Ensures-both InOrder (Course i d) (perform a t) (perform-InOrder a t v h.0)
          (perform-Course a i d t v h.0 h.1 c)))

-- A poll of a sleep for the tick `d`: pending before it, and ready with success from then on.
abbrev pub OnTime : ℕ → Option Completion × Timers → Type 0
OnTime d r =
    ((r.0 ≡ none) × (r.1.wheels.elapsed < d)) ⊎ ((r.0 ≡ some ok) × (d ≤ r.1.wheels.elapsed))

pub answer-OnTime :
    (i k d : ℕ) (t : Timers) (r : Option Completion × Timers)
    → Answered i k t r.0 r.1
    → Stands d t.wheels.elapsed (t.sleeps i)
    → OnTime d r
answer-OnTime i k d t r a (inl (l, s, e)) =
    let (o, _) = subst (λ x. Answer x k (t.sleeps i) r.0 (r.1.sleeps i)) s a.here in
    inl (o, omega (arith, (a.apart).elapsed))
answer-OnTime i k d t r a (inr (l, s, e)) =
    let (o, _) = subst (λ x. Answer x k (t.sleeps i) r.0 (r.1.sleeps i)) s a.here in
    inr (o ∙ ap some e, omega (arith, (a.apart).elapsed))

pub Course-OnTime :
    (i k d : ℕ) (t : Timers) (r : Option Completion × Timers)
    → Polled i k t r
    → Course i d t
    → OnTime d r
Course-OnTime i k d t r (inl (u, _)) c = absurd (known d t.wheels.elapsed (t.sleeps i) c.stands u)
Course-OnTime i k d t r (inr (_, a)) c = answer-OnTime i k d t r a c.stands

pub Started-Stands :
    (i : ℕ) (t : Timers) (s : Sleep)
    → t.wheels.is_shutdown ≡ false
    → Started i t s
    → Stands (t.wheels.elapsed + millis i t) t.wheels.elapsed s
Started-Stands i t s r (at_once m e c) = inr (omega (arith, m), e, c)
Started-Stands i t s r (refused a e c) = absurd (cc)
Started-Stands i t s r (waiting m a e d) = inl (omega (arith, m), e, d)

-- The first poll sets a sleep on its course.
pub first-Course :
    (i k : ℕ) (t : Timers) (r : Option Completion × Timers)
    → (t.sleeps i).state ≡ unregistered
    → t.wheels.is_shutdown ≡ false
    → Polled i k t r
    → Course i (t.wheels.elapsed + millis i t) r.1
first-Course i k t r u s (inl (_, (t', b, a))) =
    let d = t.wheels.elapsed + millis i t in
    Course-Answered i k d t' r.0 r.1 a (record {
      runs = (b.apart).same ∙ s;
      stands =
          subst (λ n. Stands d n (t'.sleeps i)) (sym (b.apart).elapsed)
            (Started-Stands i t (t'.sleeps i) s b.started);
    })
first-Course i k t r u s (inr (h, _)) = absurd (h u)

pub first-OnTime :
    (i k : ℕ) (t : Timers) (r : Option Completion × Timers)
    → (t.sleeps i).state ≡ unregistered
    → t.wheels.is_shutdown ≡ false
    → Polled i k t r
    → OnTime (t.wheels.elapsed + millis i t) r
first-OnTime i k t r u s (inl (_, (t', b, a))) =
    let d = t.wheels.elapsed + millis i t in
    answer-OnTime i k d t' r a (
      subst (λ n. Stands d n (t'.sleeps i)) (sym (b.apart).elapsed)
        (Started-Stands i t (t'.sleeps i) s b.started))
first-OnTime i k t r u s (inr (h, _)) = absurd (h u)

-- A new sleep that is polled while the driver runs, and polled again after any calls (polls, also
-- of itself, drops and resets of other sleeps, parks), rings on time: nothing panics, and the
-- second poll is pending if the wheel then stands before the tick of the first poll plus the
-- milliseconds of the duration, and ready with success from that tick on. The timers are in order
-- before, each reset is of a sleep that is not registered, and the ticks of the parks do not go
-- back and are less than 2^63.
pub sleep-OnTime :
    (i k j : ℕ) (more : List Action) (t : Timers)
    → InOrder t
    → (t.sleeps i).state ≡ unregistered
    → t.wheels.is_shutdown ≡ false
    → ((r : Option Completion × Timers) → poll i k t ≡ done r → AllLeave i more r.1)
    → Ensures
        (OnTime (t.wheels.elapsed + millis i t))
        (poll i k t >>= λ r. run more r.1 >>= poll i j)
sleep-OnTime i k j more t v u s h =
    let d = t.wheels.elapsed + millis i t in
    Ensures-map (λ r. Polled i k t r × AllLeave i more r.1) (OnTime d)
      (λ r. run more r.1 >>= poll i j) (poll i k t)
      (λ r p.
        Ensures-map (λ t'. InOrder t' × Course i d t') (OnTime d) (poll i j) (run more r.1)
          (λ t' q.
            Ensures-weaken (Polled i j t') (OnTime d) (poll i j t')
              (λ y z. Course-OnTime i j d t' y z q.1) (poll-Polled i j t' q.0))
          (run-Course more i d r.1 (Polled-InOrder i k t r p.0) p.1 (first-Course i k t r u s p.0)))
      (Ensures-known (Polled i k t) _ (poll i k t) (λ r e p. (p, h r e)) (poll-Polled i k t v))
