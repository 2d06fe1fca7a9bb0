-- ===== src/Uring/Operation/Results.antt =====
-- What becomes of the completions of an operation of norn-uring/src/operation.
use faser.Prelude.{
  ℕ, ◌+◌, ◌≡◌, refl, Bool, true, false, Option, none, some, List, [], ◌∷◌, ◌++◌, Ensures, count_if,
  arith, Bool-cases, inl, inr, ap,
}
use faser.Uring.Operation.{
  CqeResult, World, Action, completes, polls, drops, perform, complete, push_completion, drop_ref,
  destroy, poll, poll_next, try_complete, pop, pop_from, drop_handle, onto,
}
use faser.Uring.Operation.Shape.{count, count-append, count-onto, resolve_lem, pop_from_lem}
use faser.Uring.Operation.Safety.{Inv, Permitted}

-- What a poll of a `Singleshot` answers, by whether the kernel still has the operation.
pub record Pending (k : ℕ) (w w' : World) : Type 0 where
  pub waits : w'.op.waker ≡ some k
  pub untouched : w'.delivered ≡ w.delivered

pub record Ready (c : CqeResult) (w w' : World) : Type 0 where
  pub final : c.more ≡ false
  pub all : w'.delivered ≡ onto w.op.completions w.delivered
  pub none_left : w'.op.completions ≡ []

abbrev pub Answers : ℕ → Bool → World → Option CqeResult × World → Type 0
Answers k true w (none, w') = Pending k w w'
Answers k false w (some c, w') = Ready c w w'
Answers k kernel w x = ⊥

poll_by :
    (k : ℕ) (w : World) (kernel : Bool)
    → w.kernel ≡ kernel
    → Inv true w
    → Permitted true (polls k) w
    → Ensures (Answers k kernel w) (poll k w)
unfolding poll try_complete
poll_by k w true e v p = ground arith
poll_by k w false e v p =
    let (c, f, m) = resolve_lem w.op.completions w.delivered (v.final refl e p.1) in
    ground (arith, f, m)

-- A poll of a single-shot operation is pending while the kernel has it, and then leaves its waker
-- and delivers nothing; afterwards it returns a completion without `more` and has delivered all
-- completions in the order in which they came.
pub poll_lem :
    (k : ℕ) (w : World)
    → Inv true w
    → Permitted true (polls k) w
    → Ensures (Answers k (w.kernel) w) (poll k w)
poll_lem k w v p = poll_by k w w.kernel refl v p

-- The completions that pass a test: those delivered, those cleaned up and those waiting.
abbrev pub seen : (CqeResult → Bool) → World → ℕ
seen q w = count q w.delivered + count q w.cleaned + count q w.op.completions

-- The completions that an action brings.
abbrev pub brought : (CqeResult → Bool) → Action → ℕ
brought q (completes c) = count_if (q c)
brought q a = 0

complete-seen :
    (q : CqeResult → Bool) (single : Bool) (c : CqeResult) (w : World)
    → Inv single w
    → w.kernel ≡ true
    → Ensures (λ w'. seen q w' ≡ seen q w + count_if (q c)) (complete c w)
unfolding complete push_completion drop_ref destroy
complete-seen q single c w v p = ground (
  arith,
  count-append q w.op.completions (c ∷ []),
  count-onto q (w.op.completions ++ (c ∷ [])) w.cleaned,
)

drop-seen :
    (q : CqeResult → Bool) (single : Bool) (w : World)
    → Inv single w
    → w.handle ≡ true
    → Ensures (λ w'. seen q w' ≡ seen q w + 0) (drop_handle w)
unfolding drop_handle drop_ref destroy
drop-seen q single w v p = ground (arith, count-onto q w.op.completions w.cleaned)

poll-seen :
    (q : CqeResult → Bool) (k : ℕ) (w : World)
    → Inv true w
    → Permitted true (polls k) w
    → Ensures (λ w'. seen q w' ≡ seen q w + 0) (perform true (polls k) w)
unfolding perform poll try_complete
poll-seen q k w v p = elim (Bool-cases w.kernel) [
  | inl e ↦ ground arith
  | inr e ↦
      let (c, f, m) = resolve_lem w.op.completions w.delivered (v.final refl e p.1) in
      ground (arith, f, m, count-onto q w.op.completions w.delivered)
]

pub pop-count :
    (q : CqeResult → Bool) (c : CqeResult) (cs : List CqeResult)
    → count q (c ∷ cs) ≡ count q (pop_from c cs).1 + count_if (q (pop_from c cs).0)
pop-count q c cs = omega (
  arith,
  ap (count q) (pop_from_lem c cs),
  count-append q (pop_from c cs).1 ((pop_from c cs).0 ∷ []),
)

poll_next-seen :
    (q : CqeResult → Bool) (k : ℕ) (w : World) (cs : List CqeResult)
    → w.op.completions ≡ cs
    → Inv false w
    → Permitted false (polls k) w
    → Ensures (λ w'. seen q w' ≡ seen q w + 0) (perform false (polls k) w)
unfolding perform poll_next pop
poll_next-seen q k w [] e v p = ground arith
poll_next-seen q k w (c ∷ cs) e v p = ground (arith, pop-count q c cs)

-- No completion is lost or handled twice: for every test on completions, the number of those
-- delivered, cleaned up and waiting that pass it grows by one when the kernel brings such a
-- completion, and is kept by every other action, through the drop of the handle and the release of
-- the memory. The operation is in order, the kernel completes it while it has it, a single-shot
-- one without `more`, and its future is polled before it was ready.
pub perform-seen :
    (q : CqeResult → Bool) (single : Bool) (a : Action) (w : World)
    → Inv single w
    → Permitted single a w
    → Ensures (λ w'. seen q w' ≡ seen q w + brought q a) (perform single a w)
unfolding perform
perform-seen q single (completes c) w v p = complete-seen q single c w v p.0
perform-seen q true (polls k) w v p = poll-seen q k w v p
perform-seen q false (polls k) w v p = poll_next-seen q k w (w.op.completions) refl v p
perform-seen q single drops w v p = drop-seen q single w v p

-- A completion wakes the waker that the last pending poll left.
pub complete_wakes :
    (single : Bool) (k : ℕ) (c : CqeResult) (w : World)
    → Inv single w
    → w.kernel ≡ true
    → w.op.waker ≡ some k
    → Ensures (λ w'. w'.woken ≡ k ∷ w.woken) (complete c w)
unfolding complete push_completion drop_ref destroy
complete_wakes single k c w v p e = ground arith
