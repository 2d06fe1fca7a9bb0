-- ===== src/Uring/Driver/Backpressure.antt =====
-- No push future of norn-uring/src/driver/futures.rs waits while there is room for its entry, unless
-- others were notified of the room and have not been polled since.
use native.Mathlib.Decide.{ℕ_discrete}
use faser.Prelude.{
  ℕ, zero, suc, ◌-◌, ◌≡◌, ◌≤◌, ◌<◌, inl, inr, refl, sym, ◌∙◌, ap, subst, none, some, List, [], ◌∷◌,
  ◌++◌, done, Ensures, Ensures-map, arith,
}
use faser.Timer.Driver.{ParkMode}
use faser.Uring.Driver.{Driver, Cqe, submit_entries, taken}
use faser.Uring.Driver.Push.{PushFuture, Pushed, pending, pushed, shutting_down}
use faser.Uring.Driver.Push
use faser.Uring.Driver.Pushers.{Pushers, Action, starts, polls, drops, submits, perform}
use faser.Uring.Notify.{Notify, notify}
use faser.Uring.Notify.Firing.{Inv, Fires, notify_lem}
use faser.Uring.Notify.Queue.{length, skip, length-skip}
use faser.Uring.Notify.Waiting.{state_of}
use faser.Uring.Operation.{IoResult, ok, err}
use faser.Uring.Driver.Room.{Fits, Spared, Room, keeps}
use faser.Uring.Driver.Room.Polls.{poll-Room}
use faser.Uring.Driver.Room.Drops.{notified-Fits, notified_below, no_waiters, drop-Room}

submitted-Room :
    (bound k : ℕ) (s : Pushers) (d : Driver) (n : Notify)
    → Room bound s
    → k ≤ length s.driver.sq
    → d.status ≡ s.driver.status
    → d.capacity ≡ s.driver.capacity
    → d.sq ≡ skip k s.driver.sq
    → d.backpressure ≡ n
    → Fires k s.driver.backpressure.waiters s.driver.backpressure n
    → Inv n
    → Room bound (record s { driver = d })
submitted-Room bound k s d n r h a c q b f v = record {
  runs = a ∙ r.runs;
  inv = subst Inv (sym b) v;
  fits = λ i.
      subst (λ x. Fits (state_of i x) (s.futures i)) (sym b)
        (notified-Fits k i s.driver.backpressure n (s.futures i) r.inv f (r.fits i));
  below = r.below;
  spared =
      subst (λ x. Spared bound x (length d.sq) d.capacity) (sym b)
        (elim r.spared [
          | inl z ↦ inl (f.waiters ∙ ap (skip k) z ∙ skip_none k)
          | inr z ↦ elim (ℕ_discrete (length s.driver.backpressure.waiters - k) 0) [
            | yes p ↦ inl (
                no_waiters n.waiters
                  (omega (arith, ap length f.waiters, length-skip k s.driver.backpressure.waiters)))
            | no p ↦ inr (
                omega (
                  arith,
                  c,
                  ap length q,
                  length-skip k s.driver.sq,
                  notified_below bound k s n r f,
                ))
          ]
        ]);
}
  where
    skip_none : (k : ℕ) → skip {A = ℕ} k [] ≡ []
    skip_none zero = refl
    skip_none (suc k) = refl

-- The entries that the kernel takes.
abbrev pub takes : IoResult → ℕ
takes (ok n) = n
takes (err e) = 0

taken-Room :
    (bound : ℕ) (x : IoResult) (ms : List ParkMode) (cs : List Cqe) (s : Pushers)
    → Room bound s
    → takes x ≤ length s.driver.sq
    → Ensures
        (λ y. Room bound (record s { driver = y.1 }))
        (taken x (record (s.driver) { entered = ms; cq = cs }))
taken-Room bound (err e) ms cs s r h = record {
  runs = r.runs;
  inv = r.inv;
  fits = r.fits;
  below = r.below;
  spared = r.spared;
}
taken-Room bound (ok k) ms cs s r h =
    Ensures-map _ (λ y. Room bound (record s { driver = y.1 })) _ (notify k s.driver.backpressure)
      (λ y (c, f, v). submitted-Room bound k s _ y.1 r h refl refl refl refl f v)
      (notify_lem k s.driver.backpressure r.inv)

-- A new future takes a number below the bound that is not in use; the kernel takes no more entries
-- than there are.
abbrev pub Permitted : ℕ → Action → Pushers → Type 0
Permitted bound (starts i e) s = (i < bound) × (s.futures i ≡ none)
Permitted bound (polls i k) s = Unit {0}
Permitted bound (drops i) s = Unit {0}
Permitted bound (submits mode a) s = takes a.result ≤ length s.driver.sq

-- While the driver runs, whatever push futures are made, polled in any order or dropped, and
-- however many of the queued entries the kernel takes when they are submitted (or which error it
-- answers), nothing panics, and a future waits only if the submission queue has no more room than
-- futures were notified of and have not been polled since: once all that were notified have been
-- polled, nobody waits unless the queue is full.
pub perform-Room :
    (bound : ℕ) (a : Action) (s : Pushers)
    → Room bound s
    → Permitted bound a s
    → Ensures (Room bound) (perform a s)
unfolding perform submit_entries Push.new
perform-Room bound (starts i e) s r (h, q) =
    let free = subst (Fits (state_of i s.driver.backpressure)) q (r.fits i) in
    keeps bound i (some (Push.new e)) s.driver s r h r.runs r.inv (λ j p. refl)
      ((e, refl), inl (refl, free)) r.spared
perform-Room bound (polls i k) s r h = poll-Room bound i k (s.futures i) s r refl
perform-Room bound (drops i) s r h = drop-Room bound i (s.futures i) s r refl
perform-Room bound (submits mode a) s r h =
    Ensures-map (λ y. Room bound (record s { driver = y.1 })) (Room bound)
      (λ y. done (record s { driver = y.1 })) _ (λ y z. z)
      (taken-Room bound a.result (mode ∷ s.driver.entered) (s.driver.cq ++ a.posted) s r h)
