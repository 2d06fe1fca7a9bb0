-- ===== src/Uring/Fd/Closing.antt =====
-- A close of norn-uring/src/fd.rs waits only while others have the descriptor.
use faser.Prelude.{
  ℕ, zero, suc, ◌+◌, ◌-◌, ◌^◌, ◌==◌, ◌≡◌, ◌≤◌, ◌<◌, ◌⊎◌, inl, inr, refl, ◌∙◌, ap, subst, sym, true,
  false, Option, Bool-cases, ltb, count_if, none, some, List, [], ◌∷◌, done, Ensures, Ensures-map,
  arith,
}
use faser.Uring.Fd.{
  NornFd, Close, starting, waiting, submitted, Closed, pending, ready, step, step_starting,
  close_loop, close, drop, give_up,
}
use faser.Uring.Notify.{Notify, unregistered, linked, fired, notify}
use faser.Uring.Notify
use faser.Uring.Notify.Firing.{is_linked, Inv, notify_lem}
use faser.Uring.Notify.Queue.{occurrences, length, skip}
use faser.Uring.Notify.Waiting.{state_of, Waits, wait-Gone, poll-registers, poll-Waits, poll-clears}
use faser.Uring.Operation.{IoResult, ok, err}

-- Somebody has the descriptor, the queue is in order, and nobody waits unless there are two handles.
pub record Awaited (w : NornFd) : Type 0 where
  pub inv : Inv w.notify
  pub alive : 1 ≤ w.strong
  pub held : (w.notify.waiters ≡ []) ⊎ (2 ≤ w.strong)

-- A future that waits has a place in the queue, the others have none.
abbrev pub Fits : ℕ → Close → NornFd → Type 0
Fits i waiting w = (state_of i w.notify ≡ linked) ⊎ (state_of i w.notify ≡ fired)
Fits i starting w = state_of i w.notify ≡ unregistered
Fits i submitted w = state_of i w.notify ≡ unregistered

-- How a poll may leave the future.
abbrev pub Settled : ℕ → Option IoResult → Closed × Close × NornFd → Type 0
Settled i x (pending, starting, w) = ⊥
Settled i x (pending, waiting, w) = (state_of i w.notify ≡ linked) × (2 ≤ w.strong)
Settled i x (pending, submitted, w) = (x ≡ none) × (state_of i w.notify ≡ unregistered)
Settled i x (ready (ok n), c, w) = (n ≡ 0) × (w.closed ≡ true)
Settled i x (ready (err e), c, w) = x ≡ some (err e)

abbrev pub After : ℕ → Option IoResult → Closed × Close × NornFd → Type 0
After i x r = Awaited r.2 × Settled i x r

-- The descriptor with another queue that nobody joined.
Awaited-notify :
    (w : NornFd) (n : Notify)
    → Awaited w
    → Inv n
    → n.waiters ≡ w.notify.waiters
    → Awaited (record w { notify = n })
Awaited-notify w n a v e = record {
  inv = v;
  alive = a.alive;
  held = subst (λ q. (q ≡ []) ⊎ (2 ≤ w.strong)) (sym e) a.held;
}

as_closed : (w : NornFd) → Awaited w → Awaited (record w { closed = true })
as_closed w a = record { inv = a.inv; alive = a.alive; held = a.held }

found_closed :
    (n i k : ℕ) (x : Option IoResult) (w : NornFd)
    → Awaited w
    → w.closed ≡ true
    → Ensures (After i x) (close_loop (suc n) i k x starting w)
unfolding close_loop step
found_closed n i k x w a e = rw e (as_closed w a, (refl, refl))

submitted_lem :
    (n i k : ℕ) (x : Option IoResult) (w : NornFd)
    → Awaited w
    → Fits i submitted w
    → Ensures (After i x) (close_loop (suc (suc n)) i k x submitted w)
unfolding close_loop step
submitted_lem n i k none w a f = (a, (refl, f))
submitted_lem n i k (some (err e)) w a f = (a, refl)
submitted_lem n i k (some (ok m)) w a f =
    found_closed n i k (some (ok m)) (record w { closed = true }) (as_closed w a) refl

-- The future enters the queue, or takes a new waker in it.
joins :
    (i k : ℕ) (w : NornFd) (ws : List ℕ) (n : ℕ) (x : Option IoResult)
    → Awaited w
    → 2 ≤ w.strong
    → ((n' : Notify) × (Notify.poll i k w.notify ≡ done (false, n')) × Waits i k ws w.notify n')
    → Ensures (After i x) (close_loop (suc n) i k x waiting w)
unfolding close_loop step
joins i k w ws n x a h (n', e, p) =
    rw e (record { inv = p.inv; alive = a.alive; held = inr h }, (p.state, h))

alone_step :
    (i : ℕ) (w : NornFd)
    → w.closed ≡ false
    → (w.strong == 1) ≡ true
    → step_starting i w ≡ (none, submitted, record w { requests = w.requests + 1 })
alone_step i w e s = rw (e, s) refl

shared_step :
    (i : ℕ) (w : NornFd)
    → w.closed ≡ false
    → (w.strong == 1) ≡ false
    → step_starting i w ≡ (none, waiting, record w { notify = Notify.wait i w.notify })
shared_step i w e s = rw (e, s) refl

alone_lem :
    (n i k : ℕ) (x : Option IoResult) (w : NornFd)
    → Awaited w
    → Fits i starting w
    → w.closed ≡ false
    → (w.strong == 1) ≡ true
    → Ensures (After i x) (close_loop (suc (suc (suc n))) i k x starting w)
unfolding close_loop step
alone_lem n i k x w a f e s = rw (alone_step i w e s) (
    submitted_lem n i k x (record w { requests = w.requests + 1 })
      (record { inv = a.inv; alive = a.alive; held = a.held }) f)

shared_lem :
    (n i k : ℕ) (x : Option IoResult) (w : NornFd)
    → Awaited w
    → Fits i starting w
    → w.closed ≡ false
    → (w.strong == 1) ≡ false
    → Ensures (After i x) (close_loop (suc (suc n)) i k x starting w)
unfolding close_loop step
shared_lem n i k x w a f e s =
    let g = wait-Gone i w.notify a.inv f in
    let h : 2 ≤ w.strong = ground (arith, a.alive) in
    rw (shared_step i w e s) (
      joins i k (record w { notify = Notify.wait i w.notify }) _ n x
        (Awaited-notify w (Notify.wait i w.notify) a g.inv g.queue) h
        (poll-registers i k (Notify.wait i w.notify) g.inv g.state))

starting_lem :
    (n i k : ℕ) (x : Option IoResult) (w : NornFd)
    → Awaited w
    → Fits i starting w
    → Ensures (After i x) (close_loop (suc (suc (suc n))) i k x starting w)
starting_lem n i k x w a f = elim (Bool-cases w.closed) [
  | inl e ↦ found_closed (suc (suc n)) i k x w a e
  | inr e ↦ elim (Bool-cases (w.strong == 1)) [
    | inl s ↦ alone_lem n i k x w a f e s
    | inr s ↦ shared_lem (suc n) i k x w a f e s
  ]
]

-- Who is in the queue has another beside it that holds the descriptor.
linked-shared : (i : ℕ) (w : NornFd) → Awaited w → state_of i w.notify ≡ linked → 2 ≤ w.strong
linked-shared i w a e = elim a.held [
  | inl q ↦
      let m : occurrences i w.notify.waiters ≡ 1 =
        a.inv.marked i ∙ ap (λ s. count_if (is_linked s)) e in
      absurd (omega (arith, m, ap (occurrences i) q))
  | inr h ↦ h
]

cleared_lem :
    (n i k : ℕ) (x : Option IoResult) (w : NornFd)
    → Awaited w
    → state_of i w.notify ≡ fired
    → Ensures (After i x) (close_loop (suc (suc (suc (suc n)))) i k x waiting w)
unfolding close_loop step
cleared_lem n i k x w a e =
    let (p, n', polled, dropped, g) = poll-clears i k w.notify a.inv e in
    rw (polled, dropped)
      (starting_lem n i k x (record w { notify = n' }) (Awaited-notify w n' a g.inv g.queue)
        g.state)

-- If somebody has the descriptor, nobody waits for it unless two handles are left, the queue is in
-- order and the future has a place there exactly when it waits, then a poll of `close` ends within
-- four steps of its loop without a panic and keeps all this about the descriptor. When it is
-- ready, the descriptor is marked closed or the kernel answered with that error; when it is
-- pending, the kernel has not answered, or the future is linked in the queue and two handles are
-- left.
pub close-Settles :
    (i k : ℕ) (x : Option IoResult) (c : Close) (w : NornFd)
    → Awaited w
    → Fits i c w
    → Ensures (After i x) (close i k x c w)
unfolding close
close-Settles i k x starting w a f = starting_lem 1 i k x w a f
close-Settles i k x submitted w a f = submitted_lem 2 i k x w a f
close-Settles i k x waiting w a (inl e) =
    joins i k w _ 3 x a (linked-shared i w a e) (poll-Waits i k w.notify a.inv e)
close-Settles i k x waiting w a (inr e) = cleared_lem 0 i k x w a e

emptied : (k : ℕ) (ws : List ℕ) → length ws ≤ k → skip k ws ≡ []
emptied zero [] h = refl
emptied (suc k) [] h = refl
emptied zero (w ∷ ws) h = absurd (omega (arith, h))
emptied (suc k) (w ∷ ws) h = emptied k ws (omega (arith, h))

given_up :
    (w : NornFd)
    → Inv w.notify
    → 2 ≤ w.strong
    → w.notify.waiters ≡ []
    → Awaited (give_up w) × (give_up w).notify.waiters ≡ []
unfolding give_up
given_up w v h e =
    let s : (w.strong == 1) ≡ false = ground (arith, h) in
    rw s (record { inv = v; alive = omega (arith, h); held = inl e }, e)

-- With less than 2^64 in the queue, the drop of a handle that is not the last leaves nobody there.
pub drop-Awaited :
    (w : NornFd)
    → Awaited w
    → 2 ≤ w.strong
    → length w.notify.waiters < 2 ^ 64
    → Ensures (λ w'. Awaited w' × w'.notify.waiters ≡ []) (drop w)
unfolding drop
drop-Awaited w a h b =
    let s : ltb 0 w.strong ≡ true = ground (arith, h) in
    rw s (
      Ensures-map _ (λ w'. Awaited w' × w'.notify.waiters ≡ [])
        (λ r. done (give_up (record w { notify = r.1 }))) (notify (2 ^ 64 - 1) w.notify)
        (λ r q.
          given_up (record w { notify = r.1 }) q.2 h
            (q.1.waiters ∙ emptied (2 ^ 64 - 1) w.notify.waiters (omega (arith, b))))
        (notify_lem (2 ^ 64 - 1) w.notify a.inv))
