-- ===== src/Uring/Driver/Room/Drops.antt =====
-- Notifications, and the drops of push futures, keep what Uring/Driver/Room says.
use native.Mathlib.Decide.{ℕ_discrete}
use faser.Prelude.{
  ℕ, ◌+◌, ◌≡◌, ◌≢◌, ◌<◌, inl, inr, refl, sym, ◌∙◌, ap, subst, Option, none, some, List, [], ◌∷◌,
  done, ◌>>=◌, Ensures, Ensures-map, arith, count_if, min,
}
use faser.Uring.Driver.Push.{PushFuture, Pushed, pending, pushed, shutting_down}
use faser.Uring.Driver.Push
use faser.Uring.Driver.Pushers.{Pushers, placed, drop_in}
use faser.Uring.Notify.{Notify, EntryState, Entry, unregistered, linked, fired, notify, unlink}
use faser.Uring.Notify
use faser.Uring.Notify.Counting.{unclaimed, unclaimed-Fires, unclaimed-Others}
use faser.Uring.Notify.Firing.{Inv, Fires, is_linked}
use faser.Uring.Notify.Queue.{length, occurrences, take, skip, take-skip}
use faser.Uring.Notify.Waiting.{state_of, Gone, drop-unlinks, drop-passes}
use faser.Uring.Driver.Room.{
  Fits, Room, below_lem, placed-Fits, placed-below, in_bound, mark_of, keeps,
}

-- A drop of the future `i` that does not wait.
idle-Room :
    (bound i : ℕ) (s : Pushers)
    → Room bound s
    → i < bound
    → state_of i s.driver.backpressure ≡ unregistered
    → Room bound (placed i none s.driver s)
idle-Room bound i s r h u = keeps bound i none s.driver s r h r.runs r.inv (λ j p. refl) u r.spared

unlinked-Room :
    (bound i : ℕ) (s : Pushers) (n : Notify)
    → Room bound s
    → i < bound
    → state_of i s.driver.backpressure ≡ linked
    → Gone i (unlink i s.driver.backpressure.waiters) s.driver.backpressure n
    → Room bound (placed i none (record (s.driver) { backpressure = n }) s)
unfolding unlink
unlinked-Room bound i s n r h l g =
    keeps bound i none (record (s.driver) { backpressure = n }) s r h r.runs g.inv g.others g.state
      (elim r.spared [
        | inl z ↦ inl (g.queue ∙ ap (unlink i) z)
        | inr z ↦ inr (
            omega (
              arith,
              unclaimed-Others bound i s.driver.backpressure n h g.others,
              mark_of i s.driver.backpressure linked l,
              mark_of i n unregistered g.state,
            ))
      ])

linked_not_free : linked ≢ unregistered
linked_not_free x = cc

fired-Fits : (o : Option PushFuture) → Fits linked o → Fits fired o
fired-Fits none h = absurd (linked_not_free h)
fired-Fits (some f) (t, inl (w, u)) = absurd (linked_not_free u)
fired-Fits (some f) (t, inr (w, x)) = (t, inr (w, inr refl))

-- A notification changes the states of the waiters only.
pub notified-Fits :
    (k i : ℕ) (n n' : Notify) (o : Option PushFuture)
    → Inv n
    → Fires k n.waiters n n'
    → Fits (state_of i n) o
    → Fits (state_of i n') o
notified-Fits k i n n' o v f h = elim (ℕ_discrete (occurrences i (take k n.waiters)) 0) [
  | yes z ↦ subst (λ (x : Entry). Fits x.state o) (sym (f.missed i z)) h
  | no z ↦
      let was : state_of i n ≡ linked =
        linked_state (state_of i n) (omega (arith, v.marked i, take-skip i k n.waiters)) in
      subst (λ x. Fits x o) (sym (f.hit i (omega arith)))
        (fired-Fits o (subst (λ x. Fits x o) was h))
]
  where
    linked_state : (x : EntryState) → 0 < count_if (is_linked x) → x ≡ linked
    linked_state x h = ground arith

pub notified_below :
    (bound k : ℕ) (s : Pushers) (n : Notify)
    → Room bound s
    → Fires k s.driver.backpressure.waiters s.driver.backpressure n
    → unclaimed bound n
      ≡ unclaimed bound s.driver.backpressure + min k (length s.driver.backpressure.waiters)
notified_below bound k s n r f =
    unclaimed-Fires bound k s.driver.backpressure n r.inv (below_lem bound s r) f

pub no_waiters : (xs : List ℕ) → length xs ≡ 0 → xs ≡ []
no_waiters [] h = refl
no_waiters (x ∷ xs) h = absurd (omega arith)

passed-Room :
    (bound i : ℕ) (s : Pushers) (m n : Notify)
    → Room bound s
    → i < bound
    → Fires 1 s.driver.backpressure.waiters s.driver.backpressure m
    → state_of i m ≡ fired
    → Gone i m.waiters m n
    → Room bound (placed i none (record (s.driver) { backpressure = n }) s)
passed-Room bound i s m n r h f e g = record {
  runs = r.runs;
  inv = g.inv;
  fits =
      placed-Fits i none m (record (s.driver) { backpressure = n }) s
        (λ j. notified-Fits 1 j s.driver.backpressure m (s.futures j) r.inv f (r.fits j)) g.others
        g.state;
  below = placed-below bound i none (record (s.driver) { backpressure = n }) s r.below h;
  spared = elim r.spared [
    | inl z ↦ inl (g.queue ∙ f.waiters ∙ ap (skip 1) z)
    | inr z ↦ elim (ℕ_discrete (length s.driver.backpressure.waiters) 0) [
      | yes p ↦ inl (g.queue ∙ f.waiters ∙ ap (skip 1) (no_waiters s.driver.backpressure.waiters p))
      | no p ↦ inr (
          omega (
            arith,
            notified_below bound 1 s m r f,
            unclaimed-Others bound i m n h g.others,
            mark_of i m fired e,
            mark_of i n unregistered g.state,
          ))
    ]
  ];
}

pub drop-Room :
    (bound i : ℕ) (o : Option PushFuture) (s : Pushers)
    → Room bound s
    → s.futures i ≡ o
    → Ensures (Room bound) (drop_in o i s)
unfolding Push.drop
drop-Room bound i none s r q = r
drop-Room bound i (some f) s r q =
    elim ((subst (Fits (state_of i s.driver.backpressure)) q (r.fits i)).1) [
      | inl (w, u) ↦ rw (Ensures, w) (idle-Room bound i s r (in_bound bound i f s r q) u)
      | inr (w, inl l) ↦
          let (n, same, g) = drop-unlinks i s.driver.backpressure r.inv l in
          rw (Ensures, w, same) (unlinked-Room bound i s n r (in_bound bound i f s r q) l g)
      | inr (w, inr l) ↦
          rw (Ensures, w)
            (Ensures-map (λ d. Room bound (placed i none d s)) (Room bound)
              (λ d. done (placed i none d s))
              (Notify.drop i s.driver.backpressure >>= λ n.
                done (record (s.driver) { backpressure = n }))
              (λ d y. y)
              (Ensures-map _ (λ d. Room bound (placed i none d s))
                (λ n. done (record (s.driver) { backpressure = n }))
                (Notify.drop i s.driver.backpressure)
                (λ n (m, x, e, g). passed-Room bound i s m n r (in_bound bound i f s r q) x e g)
                (drop-passes i s.driver.backpressure r.inv l)))
    ]
