-- ===== src/Uring/Driver/Pushing.antt =====
-- What a poll of the push future of norn-uring/src/driver/futures.rs answers.
use faser.Prelude.{
  ℕ, suc, ◌≡◌, ◌≢◌, ◌≤◌, ◌<◌, ◌⊎◌, inl, inr, refl, sym, ap, subst, Bool, true, false, none, some,
  [], ◌∷◌, ◌++◌, Outcome, done, Ensures, Bool-cases, arith, ltb,
}
use faser.Uring.Entry.{Sqe}
use faser.Uring.Notify.{Notify, EntryState, unregistered, linked, fired}
use faser.Uring.Notify
use faser.Uring.Notify.Firing.{Inv}
use faser.Uring.Notify.Queue.{length}
use faser.Uring.Notify.Waiting.{
  state_of, Waits, Gone, wait-Gone, poll-registers, poll-Waits, poll-clears, Waits-after,
}
use faser.Uring.Driver.{Driver, Status, running, draining, shutdown, is_running, try_push_raw}
use faser.Uring.Driver.Push.{
  PushFuture, Pushed, pending, pushed, shutting_down, poll, poll_loop, poll_notify, attempt,
  entry_of,
}

-- The future and its entry in the queue of waiters fit.
abbrev pub Standing : ℕ → PushFuture → Notify → Type 0
Standing i f n =
    ((f.waiting ≡ false) × (state_of i n ≡ unregistered))
    ⊎ ((f.waiting ≡ true) × ((state_of i n ≡ linked) ⊎ (state_of i n ≡ fired)))

-- What a poll of the future `i` with the entry `e` and the waker `k` answers.
abbrev pub Answers : ℕ → ℕ → Sqe → Driver → Pushed × PushFuture × Driver → Type 0
Answers i k e d (shutting_down, f', d') = (d.status ≢ running) × (d' ≡ d)
Answers i k e d (pushed, f', d') =
    (d.status ≡ running)
    × (state_of i d.backpressure ≢ linked)
    × (length d.sq < d.capacity)
    × (d' ≡ record d { sq = d.sq ++ (e ∷ []); backpressure = d'.backpressure })
    × (f' ≡ record { waiting = false; entry = none })
    × Gone i d.backpressure.waiters d.backpressure d'.backpressure
Answers i k e d (pending, f', d') =
    (d.status ≡ running)
    × (f' ≡ record { waiting = true; entry = some e })
    × (d' ≡ record d { backpressure = d'.backpressure })
    × (((state_of i d.backpressure ≡ linked)
          × Waits i k d.backpressure.waiters d.backpressure d'.backpressure)
        ⊎ ((state_of i d.backpressure ≢ linked)
            × (d.capacity ≤ length d.sq)
            × Waits i k (d.backpressure.waiters ++ (i ∷ [])) d.backpressure d'.backpressure))

entry_of_lem : (e : Sqe) (f : PushFuture) → f.entry ≡ some e → entry_of f ≡ done e
entry_of_lem e f h = rw h refl

-- A round of the loop, up to where the future waits and after that.
pending_lem :
    (m i k : ℕ) (f : PushFuture) (d d' : Driver)
    → is_running d.status ≡ true
    → poll_notify i k f d ≡ done (false, d')
    → poll_loop (suc m) i k f d ≡ done (pending, f, d')
unfolding poll_loop
pending_lem m i k f d d' s h = rw (poll_loop, s, h) refl

abbrev finish : ℕ → ℕ → Sqe → Bool × Driver → Outcome (Pushed × PushFuture × Driver)
finish i k e p = elim p.0 [
  | true ↦ done (pushed, record { waiting = false; entry = none }, p.1)
  | false ↦ poll_loop 1 i k (record { waiting = true; entry = some e }) p.1
]

goes_lem :
    (i k : ℕ) (e : Sqe) (f : PushFuture) (d d' : Driver)
    → is_running d.status ≡ true
    → f.entry ≡ some e
    → poll_notify i k f d ≡ done (true, d')
    → poll i k f d ≡ finish i k e (attempt i e d')
unfolding poll poll_loop
goes_lem i k e f d d' s x h = rw (poll_loop, s, h, entry_of_lem e f x) refl

-- The second round, after `wait`.
again_lem :
    (i k : ℕ) (e : Sqe) (d : Driver)
    → is_running d.status ≡ true
    → Inv d.backpressure
    → state_of i d.backpressure ≡ unregistered
    → (n : Notify) × (poll_loop 1 i k
          (record { waiting = true; entry = some e })
          (record d { backpressure = Notify.wait i d.backpressure })
        ≡ done (pending, record { waiting = true; entry = some e }, record d { backpressure = n }))
      × Waits i k (d.backpressure.waiters ++ (i ∷ [])) d.backpressure n
unfolding poll_notify
again_lem i k e d s v u =
    let g = wait-Gone i d.backpressure v u in
    let (n, same, w) = poll-registers i k (Notify.wait i d.backpressure) g.inv g.state in
    (
      n,
      pending_lem 0 i k (record { waiting = true; entry = some e })
          (record d { backpressure = Notify.wait i d.backpressure }) (record d { backpressure = n })
          s (rw same refl),
      Waits-after i k d.backpressure.waiters (i ∷ []) d.backpressure (Notify.wait i d.backpressure)
          n g w,
    )

push_lem :
    (e : Sqe) (d : Driver)
    → (length d.sq < d.capacity) × (try_push_raw e d ≡ (true, record d { sq = d.sq ++ (e ∷ []) }))
      ⊎ (d.capacity ≤ length d.sq) × (try_push_raw e d ≡ (false, d))
unfolding try_push_raw
push_lem e d = elim (Bool-cases (ltb (length d.sq) d.capacity)) [
  | inl r ↦ inl (ground arith, rw r refl)
  | inr r ↦ inr (ground arith, rw r refl)
]

attempt_there :
    (i : ℕ) (e : Sqe) (d d' : Driver) → try_push_raw e d ≡ (true, d') → attempt i e d ≡ (true, d')
unfolding attempt
attempt_there i e d d' h = rw h refl

attempt_full :
    (i : ℕ) (e : Sqe) (d : Driver)
    → try_push_raw e d ≡ (false, d)
    → attempt i e d ≡ (false, record d { backpressure = Notify.wait i d.backpressure })
unfolding attempt
attempt_full i e d h = rw h refl

-- What follows once the future does not wait.
finish_lem :
    (i k : ℕ) (e : Sqe) (d : Driver) (n : Notify)
    → d.status ≡ running
    → state_of i d.backpressure ≢ linked
    → Gone i d.backpressure.waiters d.backpressure n
    → Ensures (Answers i k e d) (finish i k e (attempt i e (record d { backpressure = n })))
unfolding is_running
finish_lem i k e d n s u g = elim (push_lem e d') [
  | inl (h, r) ↦ from (attempt_there i e d' _ r) (s, u, h, refl, refl, g)
  | inr (h, r) ↦
      let (m, same, w) = again_lem i k e d' (ap is_running s) g.inv g.state in
      let q = Waits-after i k d.backpressure.waiters (i ∷ []) d.backpressure n m g w in
      from (attempt_full i e d' r)
        (subst (Ensures (Answers i k e d)) (sym same) (s, refl, refl, inr (u, h, q)))
]
  where
    d' : Driver
    d' = record d { backpressure = n }

    from :
        {p : Bool × Driver}
        → attempt i e d' ≡ p
        → Ensures (Answers i k e d) (finish i k e p)
        → Ensures (Answers i k e d) (finish i k e (attempt i e d'))
    from r x = subst (λ p. Ensures (Answers i k e d) (finish i k e p)) (sym r) x

poll_running :
    (i k : ℕ) (e : Sqe) (f : PushFuture) (d : Driver)
    → d.status ≡ running
    → f.entry ≡ some e
    → Inv d.backpressure
    → Standing i f d.backpressure
    → Ensures (Answers i k e d) (poll i k f d)
unfolding poll poll_notify is_running
poll_running i k e f d s h v (inl (w, u)) =
    rw (goes_lem i k e f d d (ap is_running s) h (rw w refl)) (
      finish_lem i k e d d.backpressure s (rw u (λ x. cc))
        (record { inv = v; state = u; queue = refl; others = λ j o. refl }))
poll_running i k e f d s h v (inr (w, inl l)) =
    let (n, same, q) = poll-Waits i k d.backpressure v l in
    rw (pending_lem 1 i k f d (record d { backpressure = n }) (ap is_running s) (rw (w, same) refl))
      (s, ground (arith, w, h), refl, inl (l, q))
poll_running i k e f d s h v (inr (w, inr r)) =
    let (n, m, same, dropped, g) = poll-clears i k d.backpressure v r in
    rw
      (goes_lem i k e f d (record d { backpressure = m }) (ap is_running s) h
        (rw (w, same, dropped) refl))
      (finish_lem i k e d m s (rw r (λ x. cc)) g)

stopped_lem :
    (i k : ℕ) (e : Sqe) (f : PushFuture) (d : Driver)
    → is_running d.status ≡ false
    → d.status ≢ running
    → Ensures (Answers i k e d) (poll i k f d)
unfolding poll poll_loop
stopped_lem i k e f d s h = rw (Ensures, s) (h, refl)

pub running_cases : (s : Status) → (s ≡ running) ⊎ ((is_running s ≡ false) × (s ≢ running))
unfolding is_running
running_cases running = inl refl
running_cases draining = inr (refl, λ x. cc)
running_cases shutdown = inr (refl, λ x. cc)

-- A poll of a push future that has its entry, with the queue of waiters in order, ends within two
-- rounds of its loop: it fails and changes nothing if the driver is not running; it pushes the
-- entry at the end of the submission queue and gives up its place if it does not wait (or was
-- notified) and there is room; otherwise it is pending with the waker left, at the end of the
-- waiters if the submission queue was full, and where it was if it waits already.
pub poll-Pushes :
    (i k : ℕ) (e : Sqe) (f : PushFuture) (d : Driver)
    → f.entry ≡ some e
    → Inv d.backpressure
    → Standing i f d.backpressure
    → Ensures (Answers i k e d) (poll i k f d)
poll-Pushes i k e f d h v s = elim (running_cases d.status) [
  | inl r ↦ poll_running i k e f d r h v s
  | inr (r, q) ↦ stopped_lem i k e f d r q
]
