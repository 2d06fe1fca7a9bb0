-- ===== src/Uring/Notify/Waiting.antt =====
-- One waiter of norn-uring/src/util/notify.rs from its `wait` over its polls to its drop.
use native.Mathlib.Decide.{ℕ_discrete}
use faser.Prelude.{
  ℕ, ◌+◌, ◌-◌, ◌≡◌, ◌≢◌, refl, ap, subst, ◌∙◌, Bool, true, false, none, some, List, [], ◌∷◌, ◌++◌,
  done, ◌>>=◌, Ensures, Ensures-map, ltb, arith, count_if, min,
}
use faser.Store.{update, update_self, update_other}
use faser.Uring.Notify.{
  Notify, EntryState, Entry, unregistered, linked, fired, completed, waits, drops, polls, wait,
  poll, poll_in, drop, drop_in, cancel, notify, unlink, perform,
}
use faser.Uring.Notify.Firing.{Inv, Fires, is_linked, notify_lem}
use faser.Uring.Notify.Queue.{length, occurrences, take, length-unlink}
use faser.Uring.Notify.Safety.{uses-Inv, freed-Inv}

abbrev pub state_of : ℕ → Notify → EntryState
state_of i n = (n.entries i).state

-- All entries but that of `i` are as in `m`.
abbrev pub Others : ℕ → Notify → Notify → Type 0
Others i m n = (j : ℕ) → j ≢ i → n.entries j ≡ m.entries j

-- `i` waits in the queue `ws`, with the waker `k`; the others are as in `m`.
pub record Waits (i k : ℕ) (ws : List ℕ) (m n : Notify) : Type 0 where
  pub inv : Inv n
  pub state : state_of i n ≡ linked
  pub waker : (n.entries i).waker ≡ some k
  pub queue : n.waiters ≡ ws
  pub others : Others i m n

-- `i` is not in the queue `ws`, nor in use.
pub record Gone (i : ℕ) (ws : List ℕ) (m n : Notify) : Type 0 where
  pub inv : Inv n
  pub state : state_of i n ≡ unregistered
  pub queue : n.waiters ≡ ws
  pub others : Others i m n

set_lem : (i : ℕ) (e : Entry) (f : ℕ → Entry) (P : Entry → Type 0) → P e → P (update f i e i)
set_lem i e f P p = rw (update_self f i e) p

pub wait-Gone :
    (i : ℕ) (n : Notify) → Inv n → state_of i n ≡ unregistered → Gone i n.waiters n (wait i n)
unfolding perform wait
wait-Gone i n v e = record {
  inv = uses-Inv (waits i) n v e;
  state =
      set_lem i (record { state = unregistered; waker = none }) n.entries
        (λ x. x.state ≡ unregistered) refl;
  queue = refl;
  others = λ j h. update_other n.entries i (record { state = unregistered; waker = none }) j h;
}

poll-kept :
    (i k : ℕ) (b : Bool) (n n' : Notify)
    → Inv n
    → state_of i n ≢ completed
    → poll i k n ≡ done (b, n')
    → Inv n'
unfolding perform
poll-kept i k b n n' v h e =
    subst (λ m. Ensures Inv (m >>= λ r. done r.1)) e (uses-Inv (polls i k) n v h)

drop-kept : (i : ℕ) (n n' : Notify) → Inv n → drop i n ≡ done n' → Inv n'
unfolding perform
drop-kept i n n' v e = subst (Ensures Inv) e (uses-Inv (drops i) n v tt)

-- The entry of `i` set.
abbrev with_entry : ℕ → Entry → Notify → Notify
with_entry i e n = record n { entries = update n.entries i e }

-- The first poll of a wait puts it at the end of the queue.
pub poll-registers :
    (i k : ℕ) (n : Notify)
    → Inv n
    → state_of i n ≡ unregistered
    → (n' : Notify) × (poll i k n ≡ done (false, n')) × Waits i k (n.waiters ++ (i ∷ [])) n n'
unfolding poll
poll-registers i k n v e = (
  _,
  same,
  record {
    inv = poll-kept i k false n _ v (rw e (λ x. cc)) same;
    state = set_lem i after n.entries (λ x. x.state ≡ linked) refl;
    waker = set_lem i after n.entries (λ x. x.waker ≡ some k) refl;
    queue = refl;
    others = λ j h. update_other n.entries i after j h;
  },
)
  where
    after : Entry
    after = record { state = linked; waker = some k }

    same :
        poll_in ((n.entries i).state) i k n
        ≡ done (
          false,
          record (with_entry i after n) { waiters = n.waiters ++ (i ∷ []); count = n.count + 1 },
        )
    same = rw e refl

-- A later poll leaves the new waker.
pub poll-Waits :
    (i k : ℕ) (n : Notify)
    → Inv n
    → state_of i n ≡ linked
    → (n' : Notify) × (poll i k n ≡ done (false, n')) × Waits i k n.waiters n n'
unfolding poll
poll-Waits i k n v e = (
  _,
  same,
  record {
    inv = poll-kept i k false n _ v (rw e (λ x. cc)) same;
    state = set_lem i after n.entries (λ x. x.state ≡ linked) refl;
    waker = set_lem i after n.entries (λ x. x.waker ≡ some k) refl;
    queue = refl;
    others = λ j h. update_other n.entries i after j h;
  },
)
  where
    after : Entry
    after = record { state = linked; waker = some k }

    same : poll_in ((n.entries i).state) i k n ≡ done (false, with_entry i after n)
    same = rw e refl

-- The poll after the notification is ready, and the drop then leaves the queue alone.
pub poll-clears :
    (i k : ℕ) (n : Notify)
    → Inv n
    → state_of i n ≡ fired
    → (n' : Notify) × (n'' : Notify) × (poll i k n ≡ done (true, n'))
      × (drop i n' ≡ done n'')
      × Gone i n.waiters n n''
unfolding poll drop
poll-clears i k n v e = (
  _,
  _,
  same,
  dropped,
  record {
    inv = drop-kept i polled _ (poll-kept i k true n polled v (rw e (λ x. cc)) same) dropped;
    state = set_lem i fresh polled.entries (λ x. x.state ≡ unregistered) refl;
    queue = refl;
    others = λ j h. update_other polled.entries i fresh j h ∙ update_other n.entries i after j h;
  },
)
  where
    fresh : Entry
    fresh = record { state = unregistered; waker = none }

    after : Entry
    after = record { state = completed; waker = (n.entries i).waker }

    polled : Notify
    polled = with_entry i after n

    same : poll_in ((n.entries i).state) i k n ≡ done (true, polled)
    same = rw e refl

    dropped :
        (drop_in ((polled.entries i).state) i polled >>= λ m. done (with_entry i fresh m))
        ≡ done (with_entry i fresh polled)
    dropped = rw (set_lem i after n.entries (λ x. x.state ≡ completed) refl) refl

-- A wait that follows a place given up.
pub Waits-after :
    (i k : ℕ) (ws vs : List ℕ) (m n n' : Notify)
    → Gone i ws m n
    → Waits i k (n.waiters ++ vs) n n'
    → Waits i k (ws ++ vs) m n'
Waits-after i k ws vs m n n' g w = record {
  inv = w.inv;
  state = w.state;
  waker = w.waker;
  queue = subst (λ us. n'.waiters ≡ us ++ vs) g.queue w.queue;
  others = λ j h. w.others j h ∙ g.others j h;
}

-- The drop of a waiter that is linked.
pub drop-unlinks :
    (i : ℕ) (n : Notify)
    → Inv n
    → state_of i n ≡ linked
    → (n' : Notify) × (drop i n ≡ done n') × Gone i (unlink i n.waiters) n n'
unfolding drop cancel
drop-unlinks i n v e = (
  _,
  same,
  record {
    inv = drop-kept i n _ v same;
    state = set_lem i fresh n.entries (λ x. x.state ≡ unregistered) refl;
    queue = refl;
    others = λ j h. update_other n.entries i fresh j h;
  },
)
  where
    fresh : Entry
    fresh = record { state = unregistered; waker = none }

    there : ltb 0 n.count ≡ true
    there =
        let once : occurrences i n.waiters ≡ 1 = v.marked i ∙ ap (λ s. count_if (is_linked s)) e in
        ground (arith, v.counted, length-unlink i n.waiters (omega arith))

    same :
        (drop_in ((n.entries i).state) i n >>= λ m. done (with_entry i fresh m))
        ≡ done (with_entry i fresh (record n { count = n.count - 1; waiters = unlink i n.waiters }))
    same = rw (e, there) refl

-- The drop of a waiter that was notified passes the notification on.
pub drop-passes :
    (i : ℕ) (n : Notify)
    → Inv n
    → state_of i n ≡ fired
    → Ensures
        (λ n'.
          (m : Notify) × Fires 1 n.waiters n m × (state_of i m ≡ fired) × Gone i m.waiters m n')
        (drop i n)
unfolding drop
drop-passes i n v e = rw e (
    Ensures-map Passing Result (λ m. done (with_entry i fresh m)) (notify 1 n >>= λ r. done r.1)
      (λ m (f, w). (
        m,
        f,
        kept m f,
        record {
          inv = freed-Inv i m w (w.marked i ∙ ap (λ s. count_if (is_linked s)) (kept m f));
          state = set_lem i fresh m.entries (λ x. x.state ≡ unregistered) refl;
          queue = refl;
          others = λ j h. update_other m.entries i fresh j h;
        },
      ))
      (Ensures-map (λ r. (r.0 ≡ min 1 (length n.waiters)) × Fires 1 n.waiters n r.1 × Inv r.1)
        Passing (λ r. done r.1) (notify 1 n) (λ r (c, f, w). (f, w)) (notify_lem 1 n v)))
  where
    fresh : Entry
    fresh = record { state = unregistered; waker = none }

    Passing : Notify → Type 0
    Passing m = Fires 1 n.waiters n m × Inv m

    Result : Notify → Type 0
    Result n' =
        (m : Notify) × Fires 1 n.waiters n m × (state_of i m ≡ fired) × Gone i m.waiters m n'

    kept : (m : Notify) → Fires 1 n.waiters n m → state_of i m ≡ fired
    kept m f = elim (ℕ_discrete (occurrences i (take 1 n.waiters)) 0) [
      | yes z ↦ ap (λ (x : Entry). x.state) (f.missed i z) ∙ e
      | no z ↦ f.hit i (omega arith)
    ]
