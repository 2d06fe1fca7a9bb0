-- ===== src/Uring/Notify/Safety.antt =====
-- Every use of norn-uring/src/util/notify.rs keeps its counter, its list and its entries in step.
use native.Mathlib.Decide.{ℕ_discrete}
use faser.Prelude.{
  ℕ, suc, true, ◌<◌, ◌≡◌, ◌≢◌, refl, ◌∙◌, ap, none, some, List, [], ◌∷◌, done, Ensures, Ensures-map,
  count_if, arith, min, ltb, ◌>>=◌,
}
use faser.Store.{update, update_self, update_other}
use faser.Uring.Notify.{
  EntryState, Entry, Notify, linked, unregistered, fired, completed, notify, poll, poll_in, drop,
  drop_in, cancel, wait, perform, Action, waits, drops, notifies, polls, default,
}
use faser.Uring.Notify.Queue.{
  length, occurrences, take, skip, length-append, occurrences-append, unlink_self, unlink_other,
  length-unlink,
}
use faser.Uring.Notify.Firing.{is_linked, Marked, Armed, Inv, Fires, notify_lem}

-- A `wait` takes a number that is not in use, and a wait that is complete is not polled again.
abbrev pub Permitted : Action → Notify → Type 0
Permitted (waits i) n = (n.entries i).state ≡ unregistered
Permitted (polls i k) n = (n.entries i).state ≢ completed
Permitted (drops i) n = Unit {0}
Permitted (notifies k) n = Unit {0}

pub default-Inv : Inv default
unfolding default
default-Inv = record { counted = refl; marked = λ i. refl; armed = λ i h. absurd (omega arith) }

-- An entry set, on a list in which the others occur as before.
set-Inv :
    (i : ℕ) (e : Entry) (n n' : Notify)
    → Inv n
    → n'.entries ≡ update n.entries i e
    → n'.count ≡ length n'.waiters
    → ((j : ℕ) → j ≢ i → occurrences j n'.waiters ≡ occurrences j n.waiters)
    → occurrences i n'.waiters ≡ count_if (is_linked e.state)
    → (e.state ≡ linked → e.waker ≢ none)
    → Inv n'
set-Inv i e n n' v p c o h a = record { counted = c; marked = marked; armed = armed }
  where
    marked : Marked n'.waiters n'
    marked j = elim (ℕ_discrete j i) [
      | yes q ↦ rw (p, q, update_self n.entries i e) h
      | no q ↦ rw (p, update_other n.entries i e j q) (o j q ∙ v.marked j)
    ]

    state_linked : (s : EntryState) → 0 < count_if (is_linked s) → s ≡ linked
    state_linked linked h = refl
    state_linked unregistered h = absurd (omega arith)
    state_linked fired h = absurd (omega arith)
    state_linked completed h = absurd (omega arith)

    armed : Armed n'.waiters n'
    armed j k = elim (ℕ_discrete j i) [
      | yes q ↦ rw (p, q, update_self n.entries i e) (a (state_linked e.state (rw (← h, ← q) k)))
      | no q ↦ rw (p, update_other n.entries i e j q) (v.armed j (rw (← o j q) k))
    ]

poll_in-Inv :
    (s : EntryState) (i k : ℕ) (n : Notify)
    → (n.entries i).state ≡ s
    → s ≢ completed
    → Inv n
    → Ensures (λ r. Inv r.1) (poll_in s i k n)
poll_in-Inv unregistered i k n e h v =
    set-Inv i (record { state = linked; waker = some k }) n _ v refl
      (omega (arith, v.counted, length-append n.waiters (i ∷ [])))
      (λ j q. ground (arith, occurrences-append j n.waiters (i ∷ [])))
      (ground (arith, occurrences-append i n.waiters (i ∷ []), v.marked i)) (λ _ x. cc)
poll_in-Inv linked i k n e h v =
    set-Inv i (record { state = linked; waker = some k }) n _ v refl v.counted (λ j q. refl)
      (ground (arith, v.marked i)) (λ _ x. cc)
poll_in-Inv fired i k n e h v =
    set-Inv i (record { state = completed; waker = (n.entries i).waker }) n _ v refl v.counted
      (λ j q. refl) (ground (arith, v.marked i)) (λ x. cc)
poll_in-Inv completed i k n e h v = absurd (h refl)

-- An entry that is not linked is given up.
pub freed-Inv :
    (i : ℕ) (n : Notify)
    → Inv n
    → occurrences i n.waiters ≡ 0
    → Inv
        (record n { entries = update n.entries i (record { state = unregistered; waker = none }) })
freed-Inv i n v o =
    set-Inv i (record { state = unregistered; waker = none }) n _ v refl v.counted (λ j q. refl) o
      (λ x. cc)

abbrev released : ℕ → Notify → Notify
released i n = record n {
  entries = update n.entries i (record { state = unregistered; waker = none });
}

cancel-Inv :
    (i : ℕ) (n : Notify)
    → (n.entries i).state ≡ linked
    → Inv n
    → Ensures Inv (cancel i n >>= λ n'. done (released i n'))
unfolding cancel
cancel-Inv i n e v =
    let there : occurrences i n.waiters ≡ 1 = ground (arith, v.marked i) in
    let shorter = length-unlink i n.waiters (omega arith) in
    let room : ltb 0 n.count ≡ true = ground (arith, v.counted) in
    rw room (
      set-Inv i (record { state = unregistered; waker = none }) n _ v refl
        (omega (arith, v.counted)) (λ j q. unlink_other i j n.waiters q)
        (omega (arith, unlink_self i n.waiters)) (λ x. cc))

pass-Inv :
    (i : ℕ) (n : Notify)
    → (n.entries i).state ≡ fired
    → Inv n
    → Ensures Inv ((notify 1 n >>= λ r. done r.1) >>= λ n'. done (released i n'))
pass-Inv i n e v =
    Ensures-map Unlinked Inv (λ n'. done (released i n')) (notify 1 n >>= λ r. done r.1)
      (λ n' (u, o). freed-Inv i n' u o)
      (Ensures-map (λ r. (r.0 ≡ min 1 (length n.waiters)) × Fires 1 n.waiters n r.1 × Inv r.1)
        Unlinked (λ r. done r.1) (notify 1 n) (λ (r, n') (c, f, u). (u, still_fired n' f u))
        (notify_lem 1 n v))
  where
    Unlinked : Notify → Type 0
    Unlinked n' = Inv n' × (occurrences i n'.waiters ≡ 0)

    state_kept : (n' : Notify) → Fires 1 n.waiters n n' → (n'.entries i).state ≡ fired
    state_kept n' f = elim (ℕ_discrete (occurrences i (take 1 n.waiters)) 0) [
      | yes z ↦ ap (λ (x : Entry). x.state) (f.missed i z) ∙ e
      | no z ↦ f.hit i (omega arith)
    ]

    still_fired : (n' : Notify) → Fires 1 n.waiters n n' → Inv n' → occurrences i n'.waiters ≡ 0
    still_fired n' f u = u.marked i ∙ ap (λ x. count_if (is_linked x)) (state_kept n' f)

drop_in-Inv :
    (s : EntryState) (i : ℕ) (n : Notify)
    → (n.entries i).state ≡ s
    → Inv n
    → Ensures Inv (drop_in s i n >>= λ n'. done (released i n'))
drop_in-Inv linked i n e v = cancel-Inv i n e v
drop_in-Inv fired i n e v = pass-Inv i n e v
drop_in-Inv unregistered i n e v = freed-Inv i n v (v.marked i ∙ ap (λ x. count_if (is_linked x)) e)
drop_in-Inv completed i n e v = freed-Inv i n v (v.marked i ∙ ap (λ x. count_if (is_linked x)) e)

-- A wait, a poll before completion, a drop in any state and a notification of any number end
-- without a panic and keep the counter equal to the length of the queue, the entries in the state
-- `linked` being exactly those in the queue, once each, and each with a waker.
pub uses-Inv : (a : Action) (n : Notify) → Inv n → Permitted a n → Ensures Inv (perform a n)
unfolding perform wait drop poll
uses-Inv (waits i) n v p = freed-Inv i n v (v.marked i ∙ ap (λ x. count_if (is_linked x)) p)
uses-Inv (polls i k) n v p =
    Ensures-map (λ r. Inv r.1) Inv (λ r. done r.1) (poll_in ((n.entries i).state) i k n) (λ r u. u)
      (poll_in-Inv ((n.entries i).state) i k n refl p v)
uses-Inv (drops i) n v p = drop_in-Inv ((n.entries i).state) i n refl v
uses-Inv (notifies k) n v p =
    Ensures-map (λ r. (r.0 ≡ min k (length n.waiters)) × Fires k n.waiters n r.1 × Inv r.1) Inv
      (λ r. done r.1) (notify k n) (λ (r, n') (c, f, u). u) (notify_lem k n v)

-- What the drop of a fired entry leaves behind for the waiter `w` in front.
pub record Passed (w : ℕ) (ws : List ℕ) (n n' : Notify) : Type 0 where
  pub next : (n'.entries w).state ≡ fired
  pub rest : n'.waiters ≡ ws
  pub woken : length n'.woken ≡ suc (length n.woken)

-- If an entry that has fired is dropped before it was polled again, the waiter at the front of the
-- queue is fired and woken in its place, and the rest of the queue stays.
pub drop-Passed :
    (i w : ℕ) (ws : List ℕ) (n : Notify)
    → Inv n
    → (n.entries i).state ≡ fired
    → n.waiters ≡ w ∷ ws
    → Ensures (Passed w ws n) (drop i n)
unfolding drop
drop-Passed i w ws n v e q = rw e (
    Ensures-map (Passed w ws n) (Passed w ws n) (λ n'. done (released i n'))
      (notify 1 n >>= λ r. done r.1)
      (λ n' p. record {
        next =
            ap (λ (x : Entry). x.state)
              (update_other n'.entries i (record { state = unregistered; waker = none }) w apart)
            ∙ p.next;
        rest = p.rest;
        woken = p.woken;
      })
      (Ensures-map (λ r. (r.0 ≡ min 1 (length n.waiters)) × Fires 1 n.waiters n r.1 × Inv r.1)
        (Passed w ws n) (λ r. done r.1) (notify 1 n) (λ (r, n') (c, f, u). passed n' f)
        (notify_lem 1 n v)))
  where
    front : 0 < occurrences w n.waiters
    front = rw q (ground arith)

    apart : w ≢ i
    apart p = ground (arith, v.marked i, front)

    passed : (n' : Notify) → Fires 1 n.waiters n n' → Passed w ws n n'
    passed n' f = record {
      next = f.hit w (rw q (ground arith));
      rest = f.waiters ∙ ap (skip 1) q;
      woken = omega (arith, f.woken, ap length q);
    }
