-- ===== src/Uring/Driver/Sending.antt =====
-- The submission of an operation of norn-uring: its entry, and its state while it waits.
use faser.Prelude.{
  ℕ, ◌≡◌, ◌≢◌, ◌<◌, inl, inr, refl, sym, ◌∙◌, ap, subst, Bool, true, false, Option, none, some, [],
  ◌∷◌, ◌++◌, Outcome, done, ◌>>=◌, bind_assoc, Ensures, Ensures-map, arith,
}
use faser.Store.{update_self, update_other}
use faser.Uring.Driver.{Driver, running}
use faser.Uring.Driver.Op.{
  Op, unsubmitted, submitted, new, into_entry, poll_submit, after_push, poll, poll_submitted,
  answered, with_op,
}
use faser.Uring.Driver.Push.{PushFuture, Pushed, pending, pushed, shutting_down}
use faser.Uring.Driver.Push
use faser.Uring.Driver.Pushing.{Answers, poll-Pushes}
use faser.Uring.Entry.{Sqe}
use faser.Uring.Notify.{unregistered, linked}
use faser.Uring.Notify.Firing.{Inv}
use faser.Uring.Notify.Queue.{length}
use faser.Uring.Notify.Waiting.{state_of}
use faser.Uring.Operation.{
  CqeResult, IoResult, World, push_completion, drop_ref, destroy, complete, try_complete, resolve,
}
use faser.Uring.Operation

-- The last completion, with the result `x`.
abbrev pub last : IoResult → CqeResult
last x = record { result = x; more = false }

-- The operation while it waits with the waker `k`, and when it has its completion.
abbrev pub pending_op : ℕ → World
pending_op k = record {
  op = record { refcount = 2; waker = some k; completions = []; complete = false; has_data = true };
  freed = false;
  handle = true;
  kernel = true;
  woken = [];
  delivered = [];
  cleaned = [];
}

abbrev pub complete_op : ℕ → IoResult → World
complete_op k x = record {
  op = record {
    refcount = 1;
    waker = none;
    completions = last x ∷ [];
    complete = true;
    has_data = true;
  };
  freed = false;
  handle = true;
  kernel = false;
  woken = k ∷ [];
  delivered = [];
  cleaned = [];
}

fresh_poll : (k : ℕ) → Operation.poll k Operation.new ≡ done (none, pending_op k)
unfolding Operation.poll Operation.new
fresh_poll k = refl

pub pending_complete :
    (k : ℕ) (x : IoResult) → complete (last x) (pending_op k) ≡ done (complete_op k x)
unfolding complete push_completion drop_ref
pending_complete k x = refl

pub complete_poll :
    (k j : ℕ) (x : IoResult)
    → (w : World) × (Operation.poll j (complete_op k x) ≡ done (some (last x), w))
unfolding Operation.poll try_complete resolve
complete_poll k j x = (_, refl)

pub poll_submitted_lem :
    (k : ℕ) (o : Op) (d : Driver) (w v : World) (a : Option CqeResult)
    → d.ops o.ptr ≡ w
    → Operation.poll k w ≡ done (a, v)
    → poll_submitted k o d ≡ done (answered (a, v) o d)
unfolding poll_submitted
poll_submitted_lem k o d w v a e h =
    ap (λ x. Operation.poll k x >>= λ r. done (answered r o d)) e
    ∙ ap (λ m. m >>= λ r. done (answered r o d)) h

-- The operation `o` is in the submission queue and waits with the waker `k`.
pub record Sent (k : ℕ) (o : Op) (e : Sqe) (d : Driver) (r : Option CqeResult × Op × Driver)
    : Type 0 where
  pub pending : r.0 ≡ none
  pub op : r.1 ≡ record o { stage = submitted }
  pub queued : r.2.sq ≡ d.sq ++ (into_entry o.ptr e ∷ [])
  pub waits : r.2.ops o.ptr ≡ pending_op k
  pub others : (u : ℕ) → u ≢ o.ptr → r.2.ops u ≡ d.ops u
  pub completions : r.2.cq ≡ d.cq
  pub waiters : Inv r.2.backpressure

pushed_lem :
    (k : ℕ) (o : Op) (e : Sqe) (d d' : Driver)
    → d.ops o.ptr ≡ Operation.new
    → d' ≡ record d { sq = d.sq ++ (into_entry o.ptr e ∷ []); backpressure = d'.backpressure }
    → Inv d'.backpressure
    → Ensures (Sent k o e d) (poll_submitted k (record o { stage = submitted }) d')
pushed_lem k o e d d' h q v =
    subst (Ensures (Sent k o e d))
      (sym (
        poll_submitted_lem k (record o { stage = submitted }) d' Operation.new (pending_op k) none
          (ap (λ x. x.ops o.ptr) q ∙ h) (fresh_poll k)))
      (record {
        pending = refl;
        op = refl;
        queued = ap (λ x. x.sq) q;
        waits = update_self d'.ops o.ptr (pending_op k);
        others = λ u n. update_other d'.ops o.ptr (pending_op k) u n ∙ ap (λ x. x.ops u) q;
        completions = ap (λ x. x.cq) q;
        waiters = v;
      })

abbrev pub go_on : ℕ → Bool × Op × Driver → Outcome (Option CqeResult × Op × Driver)
go_on k r = elim r.0 [ true ↦ poll_submitted k r.1 r.2 | false ↦ done (none, r.1, r.2) ]

after_lem :
    (k : ℕ) (o : Op) (e : Sqe) (d : Driver) (p : Pushed × PushFuture × Driver)
    → d.status ≡ running
    → length d.sq < d.capacity
    → state_of o.number d.backpressure ≡ unregistered
    → d.ops o.ptr ≡ Operation.new
    → Answers o.number k (into_entry o.ptr e) d p
    → Ensures (Sent k o e d) (after_push o p >>= go_on k)
after_lem k o e d (shutting_down, f, d') s b u h a = absurd (a.0 s)
after_lem k o e d (pushed, f, d') s b u h (s', n, c, q, f', g) = pushed_lem k o e d d' h q g.inv
after_lem k o e d (pending, f, d') s b u h (s', g, q, inl (l, w)) = absurd (apart (sym u ∙ l))
  where
    apart : unregistered ≢ linked
    apart x = cc
after_lem k o e d (pending, f, d') s b u h (s', g, q, inr (l, c, w)) = absurd (omega arith)

abbrev pub fresh_op : ℕ → ℕ → Sqe → Op
fresh_op ptr i e = record {
  ptr = ptr;
  number = i;
  stage = unsubmitted (Push.new (into_entry ptr e));
  completed = false;
}

pub sent_lem :
    (k ptr i : ℕ) (e : Sqe) (d : Driver)
    → d.status ≡ running
    → length d.sq < d.capacity
    → Inv d.backpressure
    → state_of i d.backpressure ≡ unregistered
    → Ensures
        (Sent k (fresh_op ptr i e) e (with_op ptr Operation.new d))
        (poll k (new ptr i e d).0 (new ptr i e d).1)
unfolding poll poll_submit new Push.new
sent_lem k ptr i e d s b v u =
    subst (Ensures (Sent k (fresh_op ptr i e) e (with_op ptr Operation.new d)))
      (bind_assoc (Push.poll i k (Push.new (into_entry ptr e)) d') (after_push (fresh_op ptr i e))
        (go_on k))
      (Ensures-map (Answers i k (into_entry ptr e) d')
        (Sent k (fresh_op ptr i e) e (with_op ptr Operation.new d))
        (λ p. after_push (fresh_op ptr i e) p >>= go_on k)
        (Push.poll i k (Push.new (into_entry ptr e)) d')
        (λ p a. after_lem k (fresh_op ptr i e) e d' p s b u (update_self d.ops ptr Operation.new) a)
        (poll-Pushes i k (into_entry ptr e) (Push.new (into_entry ptr e)) d' refl v
          (inl (refl, u))))
  where
    d' : Driver
    d' = with_op ptr Operation.new d
