-- ===== src/Uring/Operation/Safety.antt =====
-- The reference count, the memory and the completions of an operation of norn-uring/src/operation.
use faser.Prelude.{
  ℕ, ◌+◌, ◌≡◌, Bool, true, false, not, ◌||◌, [], Ensures, count_if, arith, refl, Bool-cases, inl,
  inr,
}
use faser.Uring.Operation.{
  CqeResult, World, Action, completes, polls, drops, perform, complete, push_completion, drop_ref,
  destroy, poll, poll_next, try_complete, pop, drop_handle,
}
use faser.Uring.Operation.Shape.{Final, resolve_lem}

pub record Inv (single : Bool) (w : World) : Type 0 where
  pub counted : w.op.refcount ≡ count_if w.handle + count_if w.kernel
  pub memory : w.freed ≡ not (w.handle || w.kernel)
  pub finished : w.op.complete ≡ not w.kernel
  pub data_there : w.kernel ≡ true → w.op.has_data ≡ true
  pub data_kept : single ≡ false → w.handle ≡ true → w.op.has_data ≡ true
  pub taken : w.op.has_data ≡ false → w.op.completions ≡ []
  pub still_open : single ≡ true → w.kernel ≡ true → w.op.completions ≡ []
  pub final : single ≡ true → w.kernel ≡ false → w.op.has_data ≡ true → Final w.op.completions

-- The kernel completes what it still has, a single-shot operation with one completion without `more`;
-- a future is not polled again after it was ready.
abbrev pub Permitted : Bool → Action → World → Type 0
Permitted single (completes c) w = (w.kernel ≡ true) × (single ≡ true → c.more ≡ false)
Permitted single (polls k) w = (w.handle ≡ true) × (w.op.has_data ≡ true)
Permitted single drops w = w.handle ≡ true

complete-Inv :
    (single : Bool) (c : CqeResult) (w : World)
    → Inv single w
    → w.kernel ≡ true
    → (single ≡ true → c.more ≡ false)
    → Ensures (Inv single) (complete c w)
unfolding complete push_completion drop_ref destroy
complete-Inv true c w v p m = let e = v.still_open refl p in let n = m refl in ground arith
complete-Inv false c w v p m = ground arith

drop-Inv :
    (single : Bool) (w : World)
    → Inv single w
    → w.handle ≡ true
    → Ensures (Inv single) (drop_handle w)
unfolding drop_handle drop_ref destroy
drop-Inv single w v p = ground arith

poll-Inv :
    (k : ℕ) (w : World)
    → Inv true w
    → w.handle ≡ true
    → w.op.has_data ≡ true
    → Ensures (Inv true) (perform true (polls k) w)
unfolding perform poll try_complete
poll-Inv k w v p d = elim (Bool-cases w.kernel) [
  | inl e ↦ ground arith
  | inr e ↦
      let (c, f, m) = resolve_lem w.op.completions w.delivered (v.final refl e d) in
      ground (arith, f, m)
]

poll_next-Inv :
    (k : ℕ) (w : World)
    → Inv false w
    → w.handle ≡ true
    → w.op.has_data ≡ true
    → Ensures (Inv false) (perform false (polls k) w)
unfolding perform poll_next pop
poll_next-Inv k w v p d = ground arith

-- Whatever happens to a submitted operation, single-shot or multi-shot (the kernel completes it
-- while it has it, its future is polled before it was ready, its handle is dropped), nothing
-- panics, the freed allocation is not touched, the reference count is the number of its owners,
-- the memory is freed with the last of them, and a single-shot operation whose output was not
-- taken holds no completion while the kernel has it and exactly one, the last, afterwards. The
-- kernel completes a single-shot operation without `more`, since `update` panics otherwise.
pub does-Inv :
    (single : Bool) (a : Action) (w : World)
    → Inv single w
    → Permitted single a w
    → Ensures (Inv single) (perform single a w)
unfolding perform
does-Inv single (completes c) w v p = complete-Inv single c w v p.0 p.1
does-Inv true (polls k) w v p = poll-Inv k w v p.0 p.1
does-Inv false (polls k) w v p = poll_next-Inv k w v p.0 p.1
does-Inv single drops w v p = drop-Inv single w v p
