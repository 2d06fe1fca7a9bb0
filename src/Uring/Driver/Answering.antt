-- ===== src/Uring/Driver/Answering.antt =====
-- From the submission of an operation of norn-uring to its answer, over the driver and back.
use native.Mathlib.Decide.{ℕ_discrete}
use faser.Prelude.{
  ℕ, ◌+◌, ◌≡◌, ◌≢◌, ◌<◌, inl, inr, refl, sym, ◌∙◌, ap, subst, Bool, true, ltb, Option, some, List,
  [], ◌∷◌, ◌++◌, All, done, ◌>>=◌, bind_assoc, Ensures, Ensures-map, Ensures-weaken, arith,
}
use faser.Store.{update_self}
use faser.Uring.Driver.{
  Driver, Cqe, running, usize_max, dispatch, dispatch_all, complete_operation, drain,
}
use faser.Uring.Driver.Completing.{Owned, Owned-Agrees, dispatch_all-Others}
use faser.Uring.Driver.Dispatch.{dispatch_cases, holds, Sound}
use faser.Uring.Driver.Draining.{with_cq, drain-in_order, dispatch_all-append}
use faser.Uring.Driver.Op.{Op, submitted, new, poll_submit, submit_in, poll, with_op}
use faser.Uring.Driver.Sending.{
  last, pending_op, complete_op, pending_complete, complete_poll, poll_submitted_lem, Sent, go_on,
  fresh_op, sent_lem,
}
use faser.Uring.Entry.{Sqe}
use faser.Uring.Notify.{unregistered}
use faser.Uring.Notify.Firing.{Inv}
use faser.Uring.Notify.Queue.{length}
use faser.Uring.Notify.Waiting.{state_of}
use faser.Uring.Operation.{CqeResult, IoResult, World, complete}
use faser.Uring.Operation
use faser.Uring.Operation.Safety

-- The kernel posts the completion, with the `user_data` of the entry, behind those that wait.
abbrev pub posts : ℕ → IoResult → Driver → Driver
posts ptr x d = record d { cq = d.cq ++ (record { user_data = ptr; cqe = last x } ∷ []) }

dispatch_lem :
    (k ptr : ℕ) (x : IoResult) (d : Driver)
    → 1024 < ptr
    → d.ops ptr ≡ pending_op k
    → dispatch (record { user_data = ptr; cqe = last x }) d ≡ done (with_op ptr (complete_op k x) d)
unfolding complete_operation
dispatch_lem k ptr x d h e = elim (dispatch_cases (record { user_data = ptr; cqe = last x }) d) [
  | inl (b, q) ↦ absurd (omega arith)
  | inr (inl (b, q)) ↦ absurd (omega arith)
  | inr (inr (inl (b, q))) ↦ absurd (omega arith)
  | inr (inr (inr (b, q))) ↦
      let room : ltb 1024 ptr ≡ true = ground arith in
      q
      ∙ rw room (ap (λ w. complete (last x) w >>= λ v. done (with_op ptr v d)) e)
      ∙ ap (λ m. m >>= λ v. done (with_op ptr v d)) (pending_complete k x)
]

poll_lem :
    (j k : ℕ) (o : Op) (x : IoResult) (d : Driver)
    → o.stage ≡ submitted
    → d.ops o.ptr ≡ complete_op k x
    → Ensures (λ t. t.0 ≡ some (last x)) (poll j o d)
unfolding poll poll_submit
poll_lem j k o x d s e =
    let (w, h) = complete_poll k j x in
    subst (Ensures (λ t. t.0 ≡ some (last x)))
      (sym (
        ap (λ g. submit_in g j o d >>= go_on j) s
        ∙ poll_submitted_lem j o d (complete_op k x) w (some (last x)) e h))
      refl

-- What becomes of the operation when the kernel answers its entry with `x`, behind `n` completions that
-- wait: its waker is woken, and the next poll, with the waker `j`, is ready with the answer.
pub record Returned (n k j : ℕ) (o : Op) (x : IoResult) (r : ℕ × Driver) : Type 0 where
  pub handled : r.0 ≡ n + 1
  pub woken : (r.1.ops o.ptr).woken ≡ k ∷ []
  pub ready : Ensures (λ t. t.0 ≡ some (last x)) (poll j o r.1)

-- The completions that wait are for other operations, which the kernel has.
pub record Waiting (single : ℕ → Bool) (ptr : ℕ) (d : Driver) : Type 0 where
  pub sound : Sound single d
  pub owned : Owned single d.cq (holds d)
  pub others : All (λ c. ptr ≢ c.user_data) d.cq
  pub room : length d.cq < usize_max

-- The last completion, once those before it are handled.
handled_lem :
    (k j total n : ℕ) (o : Op) (x : IoResult) (d : Driver)
    → total ≡ n + 1
    → o.stage ≡ submitted
    → 1024 < o.ptr
    → d.ops o.ptr ≡ pending_op k
    → Ensures
        (Returned n k j o x)
        (dispatch_all (record { user_data = o.ptr; cqe = last x } ∷ []) d >>= λ a. done (total, a))
unfolding dispatch_all
handled_lem k j total n o x d q s h e =
    let at = update_self d.ops o.ptr (complete_op k x) in
    subst (λ m. Ensures (Returned n k j o x) ((m >>= λ a. done a) >>= λ a. done (total, a)))
      (sym (dispatch_lem k o.ptr x d h e))
      (record {
        handled = q;
        woken = ap (λ (w : World). w.woken) at;
        ready = poll_lem j k o x (with_op o.ptr (complete_op k x) d) s at;
      })

length-snoc : (cs : List Cqe) (c : Cqe) → length (cs ++ (c ∷ [])) ≡ length cs + 1
length-snoc [] c = omega arith
length-snoc (d ∷ cs) c = omega (arith, length-snoc cs c)

returned_lem :
    (single : ℕ → Bool) (k j : ℕ) (o : Op) (x : IoResult) (d : Driver)
    → o.stage ≡ submitted
    → 1024 < o.ptr
    → d.ops o.ptr ≡ pending_op k
    → Waiting single o.ptr d
    → Ensures (Returned (length d.cq) k j o x) (drain 32 usize_max (posts o.ptr x d))
returned_lem single k j o x d s h e v =
    let size = length-snoc d.cq c in
    subst (Ensures (Returned (length d.cq) k j o x))
      (sym (
        drain-in_order 32 usize_max (posts o.ptr x d) (omega arith) (omega (arith, size, v.room))
        ∙ ap (λ m. m >>= λ a. done (length (d.cq ++ (c ∷ [])), a))
            (dispatch_all-append d.cq (c ∷ []) (with_cq [] d))
        ∙ sym (
            bind_assoc (dispatch_all d.cq (with_cq [] d)) (dispatch_all (c ∷ []))
              (λ a. done (length (d.cq ++ (c ∷ [])), a)))))
      (Ensures-map (λ a. a.ops o.ptr ≡ d.ops o.ptr) (Returned (length d.cq) k j o x)
        (λ a. dispatch_all (c ∷ []) a >>= λ b. done (length (d.cq ++ (c ∷ [])), b))
        (dispatch_all d.cq (with_cq [] d))
        (λ a p. handled_lem k j (length (d.cq ++ (c ∷ []))) (length d.cq) o x a size s h (p ∙ e))
        (dispatch_all-Others single o.ptr d.cq (with_cq [] d)
          (record { ops = v.sound.ops; backpressure = v.sound.backpressure }) v.owned v.others))
  where
    c : Cqe
    c = record { user_data = o.ptr; cqe = last x }

pending-Inv : (single : Bool) (k : ℕ) → Safety.Inv single (pending_op k)
pending-Inv single k = record {
  counted = refl;
  memory = refl;
  finished = refl;
  data_there = λ h. refl;
  data_kept = λ h g. refl;
  taken = λ h. refl;
  still_open = λ h g. refl;
  final = λ h g f. cc;
}

-- The completions wait as before while the operation is submitted.
submitted-Waiting :
    (single : ℕ → Bool) (k : ℕ) (o : Op) (e : Sqe) (d : Driver) (r : Option CqeResult × Op × Driver)
    → (d.ops o.ptr).kernel ≡ true
    → Waiting single o.ptr d
    → Sent k o e d r
    → Waiting single o.ptr r.2
submitted-Waiting single k o e d r q v t = record {
  sound = record {
    ops = λ u h. elim (ℕ_discrete u o.ptr) [
      | yes p ↦
          subst (λ i. Safety.Inv (single i) (r.2.ops i)) (sym p)
            (subst (Safety.Inv (single o.ptr)) (sym t.waits) (pending-Inv (single o.ptr) k))
      | no p ↦ subst (Safety.Inv (single u)) (sym (t.others u p)) (v.sound.ops u h)
    ];
    backpressure = t.waiters;
  };
  owned =
      subst (λ cs. Owned single cs (holds r.2)) (sym t.completions)
        (Owned-Agrees single d.cq (holds d) (holds r.2)
          (λ u h. elim (ℕ_discrete u o.ptr) [
            | yes p ↦
                ap (holds d) p
                ∙ q
                ∙ sym (ap (λ (w : World). w.kernel) t.waits)
                ∙ ap (holds r.2) (sym p)
            | no p ↦ ap (λ (w : World). w.kernel) (sym (t.others u p))
          ])
          v.owned);
  others = subst (All (λ c. o.ptr ≢ c.user_data)) (sym t.completions) v.others;
  room = subst (λ cs. length cs < usize_max) (sym t.completions) v.room;
}

-- On a running driver with room in the submission queue, the first poll of a new single-shot
-- operation queues its entry with the pointer to the operation as `user_data` and is pending; if
-- the kernel then posts a last completion with that `user_data` and any result, behind the
-- completions that wait, draining handles all of them and wakes the waker of the poll, and the
-- next poll of the operation is ready with that result. The operations and the waiters are in
-- order, the push future is not linked, the pointer is above 1024, and the completions that wait
-- are fewer than usize::MAX and for other operations, which the kernel has.
pub submit-Returned :
    (single : ℕ → Bool) (k j ptr i : ℕ) (e : Sqe) (x : IoResult) (d : Driver)
    → d.status ≡ running
    → length d.sq < d.capacity
    → Inv d.backpressure
    → state_of i d.backpressure ≡ unregistered
    → 1024 < ptr
    → Waiting single ptr (new ptr i e d).1
    → Ensures
        (λ r.
          Sent k (new ptr i e d).0 e (new ptr i e d).1 r
          × Ensures (Returned (length d.cq) k j r.1 x) (drain 32 usize_max (posts ptr x r.2)))
        (poll k (new ptr i e d).0 (new ptr i e d).1)
unfolding new Operation.new
submit-Returned single k j ptr i e x d s b v u h w =
    Ensures-weaken (Sent k (fresh_op ptr i e) e base) _ (poll k (new ptr i e d).0 base)
      (λ r t. (
        t,
        subst (λ n. Ensures (Returned n k j r.1 x) (drain 32 usize_max (posts ptr x r.2)))
            (ap length t.completions)
            (subst
              (λ (o : Op).
                Ensures (Returned (length r.2.cq) k j o x) (drain 32 usize_max (posts ptr x r.2)))
              (sym t.op)
              (returned_lem single k j (record (fresh_op ptr i e) { stage = submitted }) x r.2 refl
                h t.waits
                (submitted-Waiting single k (fresh_op ptr i e) e base r
                  (ap (λ (a : World). a.kernel) (update_self d.ops ptr Operation.new)) w t))),
      ))
      (sent_lem k ptr i e d s b v u)
  where
    base : Driver
    base = (new ptr i e d).1
