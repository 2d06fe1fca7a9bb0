-- ===== src/Uring/Driver/Room.antt =====
-- When the push futures of norn-uring/src/driver/futures.rs have no reason to wait.
pub mod Polls
pub mod Drops
use native.Mathlib.Decide.{ℕ_discrete}
use faser.Prelude.{
  ℕ, ◌+◌, ◌-◌, ◌≡◌, ◌≤◌, ◌<◌, ◌⊎◌, sym, ◌∙◌, ap, subst, true, false, Option, none, some, [], arith,
  count_if,
}
use faser.Store.{update, update_self, update_other}
use faser.Uring.Driver.{Driver, running}
use faser.Uring.Driver.Push.{PushFuture}
use faser.Uring.Driver.Pushers.{Pushers, placed}
use faser.Uring.Entry.{Sqe}
use faser.Uring.Notify.{Notify, EntryState, Entry, unregistered, linked, fired}
use faser.Uring.Notify.Counting.{unclaimed, mark, is_fired, Below}
use faser.Uring.Notify.Firing.{Inv, is_linked}
use faser.Uring.Notify.Queue.{length}
use faser.Uring.Notify.Waiting.{state_of, Others}

-- A future and the state of its entry fit.
abbrev pub Fits : EntryState → Option PushFuture → Type 0
Fits s none = s ≡ unregistered
Fits s (some f) =
    ((e : Sqe) × (f.entry ≡ some e))
    × (((f.waiting ≡ false) × (s ≡ unregistered))
        ⊎ ((f.waiting ≡ true) × ((s ≡ linked) ⊎ (s ≡ fired))))

-- Nobody waits, or there is no more room than futures were notified of.
abbrev pub Spared : ℕ → Notify → ℕ → ℕ → Type 0
Spared bound n size capacity = (n.waiters ≡ []) ⊎ (capacity ≤ size + unclaimed bound n)

pub record Room (bound : ℕ) (s : Pushers) : Type 0 where
  pub runs : s.driver.status ≡ running
  pub inv : Inv s.driver.backpressure
  pub fits : (i : ℕ) → Fits (state_of i s.driver.backpressure) (s.futures i)
  pub below : (i : ℕ) → bound ≤ i → s.futures i ≡ none
  pub spared : Spared bound s.driver.backpressure (length s.driver.sq) s.driver.capacity

pub below_lem : (bound : ℕ) (s : Pushers) → Room bound s → Below bound s.driver.backpressure
below_lem bound s r i h =
    let free : state_of i s.driver.backpressure ≡ unregistered =
      subst (Fits (state_of i s.driver.backpressure)) (r.below i h) (r.fits i) in
    r.inv.marked i ∙ ap (λ x. count_if (is_linked x)) free

-- The others keep their futures and their entries, and `i` has the future `o` now.
pub placed-Fits :
    (i : ℕ) (o : Option PushFuture) (n : Notify) (d : Driver) (s : Pushers)
    → ((j : ℕ) → Fits (state_of j n) (s.futures j))
    → Others i n d.backpressure
    → Fits (state_of i d.backpressure) o
    → (j : ℕ) → Fits (state_of j d.backpressure) ((placed i o d s).futures j)
placed-Fits i o n d s f q g j = elim (ℕ_discrete j i) [
  | yes p ↦
      subst (λ x. Fits (state_of x d.backpressure) (update s.futures i o x)) (sym p)
        (subst (Fits (state_of i d.backpressure)) (sym (update_self s.futures i o)) g)
  | no p ↦
      subst (Fits (state_of j d.backpressure)) (sym (update_other s.futures i o j p))
        (subst (λ (x : Entry). Fits x.state (s.futures j)) (sym (q j p)) (f j))
]

pub placed-below :
    (bound i : ℕ) (o : Option PushFuture) (d : Driver) (s : Pushers)
    → ((j : ℕ) → bound ≤ j → s.futures j ≡ none)
    → i < bound
    → (j : ℕ) → bound ≤ j
    → (placed i o d s).futures j ≡ none
placed-below bound i o d s b h j k = update_other s.futures i o j (λ p. omega (arith, p)) ∙ b j k

pub in_bound :
    (bound i : ℕ) (f : PushFuture) (s : Pushers) → Room bound s → s.futures i ≡ some f → i < bound
in_bound bound i f s r e = elim (ℕ_discrete (bound - i) 0) [
  | yes p ↦ absurd (apart (s.futures i) (r.below i (omega arith)) e)
  | no p ↦ omega arith
]
  where
    apart : (o : Option PushFuture) → o ≡ none → o ≡ some f → ⊥
    apart o p q = cc

pub mark_of :
    (i : ℕ) (n : Notify) (s : EntryState) → state_of i n ≡ s → mark n i ≡ count_if (is_fired s)
mark_of i n s e = ap (λ x. count_if (is_fired x)) e

-- The future `i` becomes `o`, and the driver `d`.
pub keeps :
    (bound i : ℕ) (o : Option PushFuture) (d : Driver) (s : Pushers)
    → Room bound s
    → i < bound
    → d.status ≡ running
    → Inv d.backpressure
    → Others i s.driver.backpressure d.backpressure
    → Fits (state_of i d.backpressure) o
    → Spared bound d.backpressure (length d.sq) d.capacity
    → Room bound (placed i o d s)
keeps bound i o d s r h u v q g w = record {
  runs = u;
  inv = v;
  fits = placed-Fits i o s.driver.backpressure d s r.fits q g;
  below = placed-below bound i o d s r.below h;
  spared = w;
}
