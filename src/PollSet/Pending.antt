-- ===== src/PollSet/Pending.antt =====
-- A poll of the set of norn-util/src/pollset.rs runs its tasks until none is left to run.
use faser.Prelude.{
  ℕ, ◌+◌, ◌≡◌, ◌≤◌, ◌<◌, ◌⊎◌, inl, inr, refl, ltb, Bool-cases, true, ◌==◌, ◌∙◌, ap, Option, none,
  some, List, [], ◌∷◌, Outcome, done, no_fuel, ◌>>=◌, Ensures, Ensures-map, arith,
}
use faser.PollSet.{PollSet, spawn, schedule, unbind, act, acts, run_in, poll_tasks, wake}
use faser.Task.Queue.{TaskQueue, Act, spawns, schedules, unbinds}
use faser.Task.Queue
use faser.Task.Queue.Order.{Inv, Handed, next-Handed, act-Inv, schedule-Inv}
use faser.Uring.Notify.Queue.{length, length-append, occurrences}

-- How many runnables the acts may queue.
abbrev pub queued : List Act → ℕ
queued [] = 0
queued (spawns t ∷ more) = queued more + 1
queued (schedules t ∷ more) = queued more + 1
queued (unbinds t ∷ more) = queued more

abbrev pub queued_all : List (List Act) → ℕ
queued_all [] = 0
queued_all (x ∷ xs) = queued x + queued_all xs

-- The queue is in order and has at most `n` runnables.
abbrev Holds : ℕ → PollSet → Type 0
Holds n p = Inv p.queue × length p.queue.runqueue ≤ n

length-spawn : (t : ℕ) (q : TaskQueue) → length ((Queue.spawn t q).runqueue) ≤ length q.runqueue + 1
unfolding Queue.spawn Queue.bind Queue.schedule
length-spawn t q = elim (Bool-cases q.taskset.closed) [
  | inl e ↦ rw e (omega arith)
  | inr e ↦ rw e (omega (arith, length-append q.runqueue (t ∷ [])))
]

removed-runqueue :
    (o : Option (List ℕ)) (q : TaskQueue)
    → Ensures Inv (Queue.removed o q)
    → Ensures (λ q'. Inv q' × (q'.runqueue ≡ q.runqueue)) (Queue.removed o q)
removed-runqueue none q = λ v. (v, refl)
removed-runqueue (some ts) q = elim (Bool-cases (ltb 0 q.taskset.size)) [
  | inl e ↦ rw (Ensures, e) (λ v. (v, refl))
  | inr e ↦ rw (Ensures, e) (λ v. absurd v)
]

act-Holds :
    (a : Act) (n : ℕ) (p : PollSet) → Holds n p → Ensures (Holds (n + queued (a ∷ []))) (act a p)
unfolding act spawn schedule unbind Queue.act Queue.schedule Queue.remove
act-Holds (spawns t) n p (v, h) =
    (act-Inv (spawns t) p.queue v, omega (arith, h, length-spawn t p.queue))
act-Holds (schedules t) n p (v, h) =
    (act-Inv (schedules t) p.queue v, omega (arith, h, length-append p.queue.runqueue (t ∷ [])))
act-Holds (unbinds t) n p (v, h) =
    Ensures-map _ (Holds (n + 0)) (λ q. done (record p { queue = q })) (Queue.remove t p.queue)
      (λ q w. (w.0, omega (arith, h, ap length w.1)))
      (removed-runqueue (Queue.unlink t p.queue.taskset.list) p.queue
        (act-Inv (unbinds t) p.queue v))

queued_cons : (a : Act) (more : List Act) → queued (a ∷ more) ≡ queued (a ∷ []) + queued more
queued_cons (spawns t) more = omega arith
queued_cons (schedules t) more = omega arith
queued_cons (unbinds t) more = omega arith

acts-Holds :
    (more : List Act) (n : ℕ) (p : PollSet)
    → Holds n p
    → Ensures (Holds (n + queued more)) (acts more p)
unfolding acts
acts-Holds [] n p (v, h) = (v, omega (arith, h))
acts-Holds (a ∷ more) n p g =
    rw (queued_cons a more, ◌∙◌ refl (sum n (queued (a ∷ [])) (queued more)))
      (Ensures-map (Holds (n + queued (a ∷ []))) (Holds (n + queued (a ∷ []) + queued more))
        (acts more) (act a p) (λ p' w. acts-Holds more (n + queued (a ∷ [])) p' w)
        (act-Holds a n p g))
  where
    sum : (a b c : ℕ) → a + (b + c) ≡ a + b + c
    sum a b c = omega arith

-- The set is pending: nothing is left to run, and the waker is `k`.
pub record Pending (k : ℕ) (p : PollSet) : Type 0 where
  pub empty : p.queue.runqueue ≡ []
  pub waker : p.waker ≡ some k
  pub inv : Inv p.queue

run_in-Pending :
    (f : PollSet → Outcome PollSet) (k : ℕ) (o : Option (ℕ × TaskQueue)) (p : PollSet) (n : ℕ)
    → Inv p.queue
    → Handed p.queue o
    → length p.queue.runqueue ≤ n
    → ((p' : PollSet) → (m : ℕ) → m + 1 ≤ n → Holds m p' → Ensures (Pending k) (f p'))
    → Ensures (Pending k) (run_in f k o p)
run_in-Pending f k none p n v h l g = record { empty = h; waker = refl; inv = v }
run_in-Pending f k (some r) p n v (w, e) l g =
    g (record p { queue = r.1 }) (length ((r.1).runqueue)) (omega (arith, l, ap length e))
      (w, omega arith)

-- With as many runs as there are runnables, counting those that the tasks queue.
poll_tasks-Pending :
    (xs : List (List Act)) (k : ℕ) (p : PollSet)
    → Inv p.queue
    → length p.queue.runqueue + queued_all xs ≤ length xs
    → Ensures (Pending k) (poll_tasks xs k p)
unfolding poll_tasks
poll_tasks-Pending [] k p v h =
    run_in-Pending (λ p'. no_fuel) k (Queue.next p.queue) p 0 v (next-Handed p.queue v)
      (omega (arith, h)) (λ p' m l w. absurd (omega (arith, l)))
poll_tasks-Pending (x ∷ xs) k p v h =
    run_in-Pending (λ p'. acts x p' >>= poll_tasks xs k) k (Queue.next p.queue) p
      (length p.queue.runqueue) v (next-Handed p.queue v) (omega arith)
      (λ p' m l w.
        Ensures-map (Holds (m + queued x)) (Pending k) (poll_tasks xs k) (acts x p')
          (λ p'' g. poll_tasks-Pending xs k p'' g.0 (omega (arith, h, l, g.1)))
          (acts-Holds x m p' w))

-- Acts of tasks and wakers, other than `PollSet::spawn`.
abbrev pub Scheduling : List Act → Type 0
Scheduling [] = Unit
Scheduling (spawns t ∷ more) = ⊥
Scheduling (schedules t ∷ more) = Scheduling more
Scheduling (unbinds t ∷ more) = Scheduling more

-- Nothing is left to run and the waker `k` is in the set, or `k` was woken.
abbrev pub Watched : ℕ → PollSet → Type 0
Watched k p =
    ((p.queue.runqueue ≡ []) × (p.waker ≡ some k) × Inv p.queue)
    ⊎ ((0 < occurrences k p.woken) × Inv p.queue)

woken_more :
    (k : ℕ) (o : Option ℕ) (ws : List ℕ) → 0 < occurrences k ws → 0 < occurrences k (wake o ws)
woken_more k none ws h = h
woken_more k (some j) ws h = omega (arith, h)

woken_self : (k : ℕ) (o : Option ℕ) (ws : List ℕ) → o ≡ some k → 0 < occurrences k (wake o ws)
woken_self k o ws e = let same : (k == k) ≡ true = ground arith in rw (e, same) (omega arith)

scheduled : (t k : ℕ) (p : PollSet) → Watched k p → Watched k (schedule t p)
unfolding schedule
scheduled t k p (inl (e, w, v)) = inr (woken_self k p.waker p.woken w, schedule-Inv t p.queue v)
scheduled t k p (inr (h, v)) = inr (woken_more k p.waker p.woken h, schedule-Inv t p.queue v)

unbound : (t k : ℕ) (p : PollSet) → Watched k p → Ensures (Watched k) (unbind t p)
unfolding unbind Queue.remove Queue.act
unbound t k p c =
    Ensures-map (λ q. Inv q × (q.runqueue ≡ p.queue.runqueue)) (Watched k)
      (λ q. done (record p { queue = q })) (Queue.remove t p.queue)
      (λ q w. elim c [ inl x ↦ inl (w.1 ∙ x.0, x.1, w.0) | inr x ↦ inr (x.0, w.0) ])
      (removed-runqueue (Queue.unlink t p.queue.taskset.list) p.queue
        (act-Inv (unbinds t) p.queue (elim c [ inl x ↦ x.2 | inr x ↦ x.1 ])))

-- A set that is watched stays so under any acts other than `PollSet::spawn`.
acts-Watched :
    (more : List Act) (k : ℕ) (p : PollSet)
    → Scheduling more
    → Watched k p
    → Ensures (Watched k) (acts more p)
unfolding acts act
acts-Watched [] k p s c = c
acts-Watched (spawns t ∷ more) k p s c = absurd s
acts-Watched (schedules t ∷ more) k p s c = acts-Watched more k (schedule t p) s (scheduled t k p c)
acts-Watched (unbinds t ∷ more) k p s c =
    Ensures-map (Watched k) (Watched k) (acts more) (unbind t p)
      (λ p' w. acts-Watched more k p' s w) (unbound t k p c)

-- If the queue is in order and has, with all that the tasks queue when they run, at most as many
-- runnables as there are runs, then `poll_tasks` with the waker `k` ends without a panic; and
-- after any acts that follow it, other than `PollSet::spawn`, either nothing is left to run and
-- `k` is the waker of the set, or `k` was woken; the queue is then in order.
pub poll_tasks-Watched :
    (xs : List (List Act)) (k : ℕ) (p : PollSet) (more : List Act)
    → Inv p.queue
    → length p.queue.runqueue + queued_all xs ≤ length xs
    → Scheduling more
    → Ensures (Watched k) (poll_tasks xs k p >>= acts more)
poll_tasks-Watched xs k p more v h s =
    Ensures-map (Pending k) (Watched k) (acts more) (poll_tasks xs k p)
      (λ p' w. acts-Watched more k p' s (inl (w.empty, w.waker, w.inv)))
      (poll_tasks-Pending xs k p v h)
