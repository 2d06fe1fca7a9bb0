-- ===== src/Executor/Sleeping.antt =====
-- When `block_on` of norn-executor/src/lib.rs lets the thread sleep.
use faser.Prelude.{
  ℕ, ◌≡◌, refl, sym, ◌∙◌, subst, assert, ◌>>◌, Bool, true, false, Option, none, some, [], done,
  Ensures, Ensures-map, Bool-cases, inl, inr, if◌then◌else◌,
}
use faser.Task.Queue.{TaskQueue, next, act, acts}
use faser.Task.Queue.Order.{acts-Inv, Handed, next-Handed}
use faser.Task.Queue.Order
use faser.Timer.Driver.{no_park, next_completion, timeout}
use faser.Executor.{
  Phase, polling, running, finished, parked, Executor, Effects, Input, happen, try_poll, run_in,
  run_next, block_on, park, advance, advance_in, enter_park,
}

-- While the thread is parked: it may sleep only if the root future was not woken, and only if no
-- runnable is queued, unless `needs_park` broke off the loop that runs them.
abbrev pub Quiet : Phase → Executor → Type 0
Quiet (parked next_completion) e =
    (e.poll_root ≡ false) × (e.interrupted ≡ false → e.taskqueue.runqueue ≡ [])
Quiet (parked no_park) e = e.poll_root ≡ true
Quiet (parked (timeout t)) e = ⊥
Quiet running e = e.interrupted ≡ false
Quiet phase e = Unit {0}

pub record Inv (e : Executor) : Type 0 where
  pub queue : Order.Inv e.taskqueue
  pub quiet : Quiet e.phase e

happen-kept :
    (x : Effects) (e : Executor)
    → Order.Inv e.taskqueue
    → Ensures
        (λ e'. Order.Inv e'.taskqueue × (e'.phase ≡ e.phase) × (e'.interrupted ≡ e.interrupted))
        (happen x e)
unfolding happen
happen-kept x e v =
    Ensures-map Order.Inv _
      (λ q.
        done (record e { taskqueue = q; poll_root = if x.wakes_root then true else e.poll_root }))
      (acts act x.queue e.taskqueue) (λ q w. (w, refl, refl)) (acts-Inv x.queue e.taskqueue v)

enter_park-Inv :
    (e : Executor)
    → Order.Inv e.taskqueue
    → (e.interrupted ≡ false → e.taskqueue.runqueue ≡ [])
    → Inv (enter_park e)
enter_park-Inv e v h = record { queue = v; quiet = by_flag e.poll_root refl }
  where
    by_flag :
        (b : Bool)
        → e.poll_root ≡ b
        → Quiet (parked (if b then no_park else next_completion)) (enter_park e)
    by_flag true p = p
    by_flag false p = (p, h)

try_poll-Inv : (i : Input) (e : Executor) → Order.Inv e.taskqueue → Ensures Inv (try_poll i e)
unfolding try_poll
try_poll-Inv i e v = elim (Bool-cases e.poll_root) [
  | inl p ↦
      rw (Ensures, p)
        (Ensures-map _ Inv
          (λ e'.
            done (record e' { phase = if i.ready then finished else running; interrupted = false }))
          (happen i.effects (record e { poll_root = false })) (λ e' (w, p, q). after e' w i.ready)
          (happen-kept i.effects (record e { poll_root = false }) v))
  | inr p ↦ rw (Ensures, p) (record { queue = v; quiet = refl })
]
  where
    after :
        (e' : Executor)
        → Order.Inv e'.taskqueue
        → (b : Bool)
        → Inv (record e' { phase = if b then finished else running; interrupted = false })
    after e' w true = record { queue = w; quiet = tt }
    after e' w false = record { queue = w; quiet = refl }

run_in-Inv :
    (o : Option (ℕ × TaskQueue)) (i : Input) (e : Executor)
    → Order.Inv e.taskqueue
    → e.phase ≡ running
    → e.interrupted ≡ false
    → Handed e.taskqueue o
    → Ensures Inv (run_in o i e)
run_in-Inv none i e v p u h = enter_park-Inv e v (λ x. h)
run_in-Inv (some r) i e v p u h =
    Ensures-map _ Inv
      (λ e'. done (if i.needs_park then enter_park (record e' { interrupted = true }) else e'))
      (happen i.effects (record e { taskqueue = r.1 }))
      (λ e' (w, q, s). after e' w (q ∙ p) (s ∙ u) i.needs_park)
      (happen-kept i.effects (record e { taskqueue = r.1 }) h.0)
  where
    after :
        (e' : Executor)
        → Order.Inv e'.taskqueue
        → e'.phase ≡ running
        → e'.interrupted ≡ false
        → (b : Bool) → Inv (if b then enter_park (record e' { interrupted = true }) else e')
    after e' w q s true = enter_park-Inv (record e' { interrupted = true }) w (λ x. cc)
    after e' w q s false = record { queue = w; quiet = subst (λ f. Quiet f e') (sym q) s }

-- The parker returns without an error, on which `block_on` would panic.
abbrev pub Permitted : Input → Executor → Type 0
Permitted i e = i.parks ≡ true

park-Inv :
    (i : Input) (e : Executor) → Order.Inv e.taskqueue → i.parks ≡ true → Ensures Inv (park i e)
unfolding park
park-Inv i e v p =
    Ensures-map _ Inv (λ e'. assert i.parks >> done (record e' { phase = polling }))
      (happen i.effects e) (λ e' (w, q, s). rw (Ensures, p) (record { queue = w; quiet = tt }))
      (happen-kept i.effects e v)

advance_in-Inv :
    (f : Phase) (i : Input) (e : Executor)
    → e.phase ≡ f
    → Order.Inv e.taskqueue
    → Quiet f e
    → Permitted i e
    → Ensures Inv (advance_in f i e)
unfolding run_next
advance_in-Inv polling i e q v h p = try_poll-Inv i e v
advance_in-Inv running i e q v h p =
    run_in-Inv (next e.taskqueue) i e v q h (next-Handed e.taskqueue v)
advance_in-Inv finished i e q v h p = record {
  queue = v;
  quiet = subst (λ f. Quiet f e) (sym q) tt;
}
advance_in-Inv (parked mode) i e q v h p = park-Inv i e v p

-- Every step of `block_on` (a poll of the root future, a turn over the runnables, a park that
-- returns without an error), whatever the futures and the parker do in it, ends without a panic
-- and keeps: runnables are handed out in the order in which they were queued, each once; the size
-- of the task set is the length of its list; the thread waits for a completion only if the root
-- future was not woken, and only with an empty run queue unless `needs_park` broke off the loop;
-- and it parks without waiting only if the root future was woken.
pub advance-Inv : (i : Input) (e : Executor) → Inv e → Permitted i e → Ensures Inv (advance i e)
unfolding advance
advance-Inv i e v p = advance_in-Inv e.phase i e refl v.queue v.quiet p

-- The start of `block_on` on a queue in order.
pub block_on-Inv : (q : TaskQueue) → Order.Inv q → Inv (block_on q)
unfolding block_on
block_on-Inv q v = record { queue = v; quiet = tt }
