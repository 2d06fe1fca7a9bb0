-- ===== src/Uring/Driver/Room/Polls.antt =====
-- The polls of push futures keep what Uring/Driver/Room says.
use faser.Prelude.{
  ℕ, ◌≡◌, ◌≤◌, ◌<◌, inl, inr, refl, sym, ◌∙◌, ap, subst, Option, none, some, [], ◌∷◌, Ensures,
  Ensures-map, arith,
}
use faser.Uring.Driver.{Driver}
use faser.Uring.Driver.Push.{PushFuture, Pushed, pending, pushed, shutting_down}
use faser.Uring.Driver.Push
use faser.Uring.Driver.Pushers.{Pushers, placed, gone, settle, poll_in}
use faser.Uring.Driver.Pushing.{Answers, poll-Pushes}
use faser.Uring.Entry.{Sqe}
use faser.Uring.Notify.{Notify, unregistered, linked}
use faser.Uring.Notify.Counting.{mark, unclaimed-Others}
use faser.Uring.Notify.Queue.{length, length-append}
use faser.Uring.Notify.Waiting.{state_of}
use faser.Uring.Driver.Room.{Fits, Room, in_bound, mark_of, keeps}

pending-Room :
    (bound i k : ℕ) (e : Sqe) (f : PushFuture) (d : Driver) (s : Pushers)
    → Room bound s
    → i < bound
    → Answers i k e s.driver (pending, f, d)
    → Room bound (placed i (some f) d s)
pending-Room bound i k e f d s r h (u, q, x, inl (l, w)) =
    keeps bound i (some f) d s r h (ap (λ y. y.status) x ∙ u) w.inv w.others
      (subst (λ y. Fits (state_of i d.backpressure) (some y)) (sym q)
        ((e, refl), inr (refl, inl w.state)))
      (elim r.spared [
        | inl z ↦ inl (w.queue ∙ z)
        | inr z ↦ inr (
            omega (
              arith,
              ap (λ y. length y.sq) x,
              ap (λ y. y.capacity) x,
              unclaimed-Others bound i s.driver.backpressure d.backpressure h w.others,
              mark_of i s.driver.backpressure linked l,
              mark_of i d.backpressure linked w.state,
            ))
      ])
pending-Room bound i k e f d s r h (u, q, x, inr (l, c, w)) =
    keeps bound i (some f) d s r h (ap (λ y. y.status) x ∙ u) w.inv w.others
      (subst (λ y. Fits (state_of i d.backpressure) (some y)) (sym q)
        ((e, refl), inr (refl, inl w.state)))
      (inr (omega (arith, c, ap (λ y. length y.sq) x, ap (λ y. y.capacity) x)))

mark_le : (i : ℕ) (n : Notify) → mark n i ≤ 1
mark_le i n = ground arith

pushed-Room :
    (bound i k : ℕ) (e : Sqe) (f : PushFuture) (d : Driver) (s : Pushers)
    → Room bound s
    → i < bound
    → Answers i k e s.driver (pushed, f, d)
    → Ensures (Room bound) (gone i f d s)
unfolding Push.drop
pushed-Room bound i k e f d s r h (u, l, c, x, q, g) =
    subst (λ y. Ensures (Room bound) (gone i y d s)) (sym q)
      (keeps bound i none d s r h (ap (λ y. y.status) x ∙ u) g.inv g.others g.state (elim r.spared [
        | inl z ↦ inl (g.queue ∙ z)
        | inr z ↦ inr (
            omega (
              arith,
              ap (λ y. length y.sq) x,
              length-append s.driver.sq (e ∷ []),
              ap (λ y. y.capacity) x,
              unclaimed-Others bound i s.driver.backpressure d.backpressure h g.others,
              mark_le i s.driver.backpressure,
              mark_of i d.backpressure unregistered g.state,
            ))
      ]))

settle-Room :
    (bound i k : ℕ) (e : Sqe) (s : Pushers) (p : Pushed × PushFuture × Driver)
    → Room bound s
    → i < bound
    → Answers i k e s.driver p
    → Ensures (Room bound) (settle i s p)
settle-Room bound i k e s (pending, f, d) r h a = pending-Room bound i k e f d s r h a
settle-Room bound i k e s (pushed, f, d) r h a = pushed-Room bound i k e f d s r h a
settle-Room bound i k e s (shutting_down, f, d) r h a = absurd (a.0 r.runs)

pub poll-Room :
    (bound i k : ℕ) (o : Option PushFuture) (s : Pushers)
    → Room bound s
    → s.futures i ≡ o
    → Ensures (Room bound) (poll_in o i k s)
poll-Room bound i k none s r q = r
poll-Room bound i k (some f) s r q =
    let ((e, t), z) = subst (Fits (state_of i s.driver.backpressure)) q (r.fits i) in
    Ensures-map (Answers i k e s.driver) (Room bound) (settle i s) (Push.poll i k f s.driver)
      (λ p a. settle-Room bound i k e s p r (in_bound bound i f s r q) a)
      (poll-Pushes i k e f s.driver t r.inv z)
