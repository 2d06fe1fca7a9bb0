-- ===== src/Task/Queue/Order.antt =====
-- The run queue of norn-task/src/taskqueue.rs is first in, first out, and its task set is counted.
use faser.Prelude.{
  ℕ, suc, ◌+◌, ◌≡◌, refl, sym, ◌∙◌, ap, true, false, Option, none, some, List, [], ◌∷◌, ◌++◌, ◌==◌,
  ltb, append_assoc, Ensures, Ensures-map, Bool-cases, inl, inr, arith,
}
use faser.Task.Queue.{
  TaskQueue, schedule, bind, spawn, unlink, remove, removed, next, next_in, Act, spawns, schedules,
  unbinds, act, acts,
}
use faser.Uring.Notify.Queue.{length, length-append}

pub record Inv (q : TaskQueue) : Type 0 where
  pub counted : q.taskset.size ≡ length q.taskset.list
  pub fifo : q.scheduled ≡ q.started ++ q.runqueue

pub schedule-Inv : (t : ℕ) (q : TaskQueue) → Inv q → Inv (schedule t q)
unfolding schedule
schedule-Inv t q v = record {
  counted = v.counted;
  fifo = ap (λ ts. ts ++ (t ∷ [])) v.fifo ∙ append_assoc q.started q.runqueue (t ∷ []);
}

spawn-Inv : (t : ℕ) (q : TaskQueue) → Inv q → Inv (spawn t q)
unfolding spawn bind
spawn-Inv t q v = elim (Bool-cases q.taskset.closed) [
  | inl e ↦ rw e (record { counted = v.counted; fifo = v.fifo })
  | inr e ↦ rw e (
      schedule-Inv t
        (record q {
          taskset = record (q.taskset) {
            list = q.taskset.list ++ (t ∷ []);
            closed = false;
            size = q.taskset.size + 1;
          };
        })
        (record {
          counted = omega (arith, v.counted, length-append q.taskset.list (t ∷ []));
          fifo = v.fifo;
        }))
]

-- What is unlinked is one of the list.
abbrev Shorter : List ℕ → Option (List ℕ) → Type 0
Shorter xs none = Unit {0}
Shorter xs (some ys) = length xs ≡ suc (length ys)

longer :
    (x : ℕ) (xs : List ℕ) (o : Option (List ℕ))
    → Shorter xs o
    → Shorter (x ∷ xs) (elim o [ none ↦ none | some ys ↦ some (x ∷ ys) ])
longer x xs none h = tt
longer x xs (some ys) h = ap suc h

unlink-Shorter : (t : ℕ) (xs : List ℕ) → Shorter xs (unlink t xs)
unfolding unlink
unlink-Shorter t [] = tt
unlink-Shorter t (x ∷ xs) = elim (Bool-cases (x == t)) [
  | inl e ↦ rw (Shorter, e) refl
  | inr e ↦ rw (Shorter, e) (longer x xs (unlink t xs) (unlink-Shorter t xs))
]

removed-Inv :
    (o : Option (List ℕ)) (q : TaskQueue)
    → Inv q
    → Shorter q.taskset.list o
    → Ensures Inv (removed o q)
removed-Inv none q v h = v
removed-Inv (some ts) q v h =
    let there : ltb 0 q.taskset.size ≡ true = ground (arith, v.counted, h) in
    rw (Ensures, there) (record { counted = omega (arith, v.counted, h); fifo = v.fifo })

pub act-Inv : (a : Act) (q : TaskQueue) → Inv q → Ensures Inv (act a q)
unfolding act remove
act-Inv (spawns t) q v = spawn-Inv t q v
act-Inv (schedules t) q v = schedule-Inv t q v
act-Inv (unbinds t) q v =
    removed-Inv (unlink t q.taskset.list) q v (unlink-Shorter t q.taskset.list)

-- Whatever a running task does to the queue, nothing panics, the size of the set is the length of its
-- list, and what was queued is what was handed out and then what is in the queue, in that order.
pub acts-Inv : (more : List Act) (q : TaskQueue) → Inv q → Ensures Inv (acts act more q)
unfolding acts
acts-Inv [] q v = v
acts-Inv (a ∷ more) q v =
    Ensures-map Inv Inv (acts act more) (act a q) (λ q' w. acts-Inv more q' w) (act-Inv a q v)

-- What `next` hands out, and what it leaves.
abbrev pub Handed : TaskQueue → Option (ℕ × TaskQueue) → Type 0
Handed q none = q.runqueue ≡ []
Handed q (some r) = Inv r.1 × (q.runqueue ≡ r.0 ∷ r.1.runqueue)

next_in-Handed : (ts : List ℕ) (q : TaskQueue) → q.runqueue ≡ ts → Inv q → Handed q (next_in ts q)
next_in-Handed [] q e v = e
next_in-Handed (t ∷ ts) q e v = (
  record {
    counted = v.counted;
    fifo = v.fifo ∙ ap (λ xs. q.started ++ xs) e ∙ sym (append_assoc q.started (t ∷ []) ts);
  },
  e,
)

pub next-Handed : (q : TaskQueue) → Inv q → Handed q (next q)
unfolding next
next-Handed q v = next_in-Handed q.runqueue q refl v
