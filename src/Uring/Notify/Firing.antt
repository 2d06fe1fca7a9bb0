-- ===== src/Uring/Notify/Firing.antt =====
-- The counter, the list and the states of the entries of norn-uring/src/util/notify.rs agree.
use native.Mathlib.Decide.{ℕ_discrete}
use faser.Prelude.{
  ℕ, zero, suc, ◌+◌, ◌-◌, ◌≤◌, ◌<◌, ◌≡◌, ◌≢◌, refl, ◌∙◌, ap, Bool, true, false, Option, none, some,
  List, [], ◌∷◌, Ensures, count_if, arith, min, leb,
}
use faser.Store.{update_self, update_other}
use faser.Uring.Notify.{EntryState, Entry, Notify, linked, fired, wake, fire, fire_loop, notify}
use faser.Uring.Notify.Queue.{length, occurrences, take, skip, take-skip, length-skip}

abbrev pub is_linked : EntryState → Bool
is_linked linked = true
is_linked s = false

-- Those that are linked are in the list, once.
abbrev pub Marked : List ℕ → Notify → Type 0
Marked ws n = (i : ℕ) → occurrences i ws ≡ count_if (is_linked ((n.entries i).state))

-- Those in the list have left a waker.
abbrev pub Armed : List ℕ → Notify → Type 0
Armed ws n = (i : ℕ) → 0 < occurrences i ws → (n.entries i).waker ≢ none

pub record Inv (n : Notify) : Type 0 where
  pub counted : n.count ≡ length n.waiters
  pub marked : Marked n.waiters n
  pub armed : Armed n.waiters n

-- What the loop of `notify` does to the first `k` waiters, and to the others.
pub record Fires (k : ℕ) (ws : List ℕ) (n n' : Notify) : Type 0 where
  pub waiters : n'.waiters ≡ skip k ws
  pub hit : (i : ℕ) → 0 < occurrences i (take k ws) → (n'.entries i).state ≡ fired
  pub missed : (i : ℕ) → occurrences i (take k ws) ≡ 0 → n'.entries i ≡ n.entries i
  pub woken : length n'.woken ≡ length n.woken + min k (length ws)

count_if_le : (b : Bool) → count_if b ≤ 1
count_if_le true = omega arith
count_if_le false = omega arith

pub Marked-le : (ws : List ℕ) (n : Notify) → Marked ws n → (i : ℕ) → occurrences i ws ≤ 1
Marked-le ws n m i = omega (arith, m i, count_if_le (is_linked ((n.entries i).state)))

fire_other : (w i : ℕ) (n : Notify) → i ≢ w → (fire w n).entries i ≡ n.entries i
unfolding fire
fire_other w i n h = update_other n.entries w (record { state = fired; waker = none }) i h

fire_self : (w : ℕ) (n : Notify) → ((fire w n).entries w).state ≡ fired
unfolding fire
fire_self w n =
    ap (λ (e : Entry). e.state) (update_self n.entries w (record { state = fired; waker = none }))

length-wake : (o : Option ℕ) (ws : List ℕ) → o ≢ none → length (wake o ws) ≡ suc (length ws)
length-wake none ws h = absurd (h refl)
length-wake (some k) ws h = refl

fire_woken :
    (w : ℕ) (n : Notify)
    → (n.entries w).waker ≢ none
    → length (fire w n).woken ≡ suc (length n.woken)
unfolding fire
fire_woken w n h = length-wake ((n.entries w).waker) n.woken h

fire_kept : (w : ℕ) (n : Notify) → (fire w n).count ≡ n.count
unfolding fire
fire_kept w n = refl

pub fire_loop_lem :
    (k r : ℕ) (ws : List ℕ) (n : Notify)
    → ((i : ℕ) → occurrences i ws ≤ 1)
    → Armed ws n
    → ((fire_loop k r ws n).0 ≡ r + min k (length ws))
      × ((fire_loop k r ws n).1.count ≡ n.count)
      × Fires k ws n (fire_loop k r ws n).1
unfolding fire_loop
fire_loop_lem zero r ws n u a = (
  omega arith,
  refl,
  record {
    waiters = refl;
    hit = λ i h. absurd (omega arith);
    missed = λ i h. refl;
    woken = omega arith;
  },
)
fire_loop_lem (suc k) r [] n u a = (
  omega arith,
  refl,
  record {
    waiters = refl;
    hit = λ i h. absurd (omega arith);
    missed = λ i h. refl;
    woken = omega arith;
  },
)
fire_loop_lem (suc k) r (w ∷ ws) n u a =
    let (e, c, f) = fire_loop_lem k (r + 1) ws (fire w n) (λ i. omega (arith, u i)) armed in
    (
      omega (arith, e),
      c ∙ fire_kept w n,
      record {
        waiters = f.waiters;
        hit = λ i h. elim (ℕ_discrete (occurrences i (take k ws)) 0) [
          | yes z ↦ ap (λ (x : Entry). x.state) (f.missed i z) ∙ hit_now i (ground arith)
          | no z ↦ f.hit i (omega arith)
        ];
        missed = λ i h. f.missed i (omega arith) ∙ fire_other w i n (ground arith);
        woken = omega (arith, f.woken, fire_woken w n (a w (ground arith)));
      },
    )
  where
    hit_now : (i : ℕ) → i ≡ w → ((fire w n).entries i).state ≡ fired
    hit_now i p = rw p (fire_self w n)

    apart : (i : ℕ) → 0 < occurrences i ws → i ≢ w
    apart i h p = ground (arith, u w)

    armed : Armed ws (fire w n)
    armed i h = rw (fire_other w i n (apart i h)) (a i (omega arith))

Fires-Inv :
    (k : ℕ) (n n' : Notify)
    → Inv n
    → Fires k n.waiters n n'
    → n'.count ≡ n.count - min k (length n.waiters)
    → Inv n'
Fires-Inv k n n' v f c = record {
  counted = omega (arith, v.counted, c, ap length f.waiters, length-skip k n.waiters);
  marked = rw f.waiters marked;
  armed = rw f.waiters armed;
}
  where
    marked : Marked (skip k n.waiters) n'
    marked i = elim (ℕ_discrete (occurrences i (take k n.waiters)) 0) [
      | yes z ↦ rw (f.missed i z) (omega (arith, v.marked i, take-skip i k n.waiters))
      | no z ↦
          rw (f.hit i (omega arith))
            (omega (arith, take-skip i k n.waiters, Marked-le n.waiters n v.marked i))
    ]

    armed : Armed (skip k n.waiters) n'
    armed i h =
        let here : 0 < occurrences i n.waiters = omega (arith, take-skip i k n.waiters) in
        let none_taken : occurrences i (take k n.waiters) ≡ 0 =
          omega (arith, take-skip i k n.waiters, Marked-le n.waiters n v.marked i) in
        rw (f.missed i none_taken) (v.armed i here)

-- `notify(k)` returns the smaller of `k` and the number of waiters, takes that many from the front
-- of the queue, marks them fired and wakes that many wakers, leaves every other entry as it is,
-- and keeps the invariant of the queue.
pub notify_lem :
    (k : ℕ) (n : Notify)
    → Inv n
    → Ensures
        (λ r. (r.0 ≡ min k (length n.waiters)) × Fires k n.waiters n r.1 × Inv r.1)
        (notify k n)
unfolding notify
notify_lem k n v =
    let (e, c, f) = fire_loop_lem k 0 n.waiters n (Marked-le n.waiters n v.marked) v.armed in
    let r = (fire_loop k 0 n.waiters n).0 in
    let n' = (fire_loop k 0 n.waiters n).1 in
    let room : leb r n'.count ≡ true = ground (arith, e, c, v.counted) in
    let g : Fires k n.waiters n (record n' { count = n'.count - r }) = (record {
      waiters = f.waiters;
      hit = f.hit;
      missed = f.missed;
      woken = f.woken;
    }) in
    rw room (
      omega (arith, e),
      g,
      Fires-Inv k n (record n' { count = n'.count - r }) v g (omega (arith, c, e)),
    )
