-- ===== src/Uring/Operation.antt =====
-- norn-uring/src/operation: header.rs, raw.rs and mod.rs, for one operation that has been submitted.
-- Its allocation has two possible owners, the `TypedHandle` of the future and the pointer that the
-- kernel keeps as `user_data` until the last completion. What the operation does with a completion
-- is user code, except for the `update` of a `Singleshot`; `delivered` and `cleaned` record which completions `complete` or `update`, and
-- `cleanup`, were called with. These two and `woken` have the latest first.
pub mod Shape
pub mod Safety
pub mod Results
use faser.Prelude.{
  ℕ, ◌+◌, ◌-◌, Bool, true, false, not, ltb, ◌==◌, if◌then◌else◌, Option, none, some, List, [], ◌∷◌,
  ◌++◌, Outcome, done, panic, fault, ◌>>=◌, ◌>>◌, assert,
}

pub data IoResult : Type 0 where
  ok err : ℕ → IoResult

-- `CQEResult`; the flag `more` of its flags.
pub record CqeResult : Type 0 where
  pub result : IoResult
  pub more : Bool

-- `RawOp` with its `Header`. The completions have the oldest first.
pub record RawOp : Type 0 where
  pub refcount : ℕ
  pub waker : Option ℕ
  pub completions : List CqeResult
  pub complete : Bool
  pub has_data : Bool

pub record World : Type 0 where
  pub op : RawOp
  pub freed : Bool
  pub handle : Bool
  pub kernel : Bool
  pub woken : List ℕ
  pub delivered : List CqeResult
  pub cleaned : List CqeResult

-- `Op::new`: allocated with one reference, and a clone of it for the kernel.
unfoldable pub new : World
new = record {
  op = record { refcount = 2; waker = none; completions = []; complete = false; has_data = true };
  freed = false;
  handle = true;
  kernel = true;
  woken = [];
  delivered = [];
  cleaned = [];
}

abbrev access : World → Outcome World → Outcome World
access w m = elim w.freed [ true ↦ fault | false ↦ m ]

abbrev pub onto : List CqeResult → List CqeResult → List CqeResult
onto [] ds = ds
onto (c ∷ cs) ds = onto cs (c ∷ ds)

abbrev pub is_empty : List CqeResult → Bool
is_empty [] = true
is_empty (c ∷ cs) = false

-- `RawOp::destroy`: what has not been delivered is cleaned up.
unfoldable pub destroy : World → Outcome World
destroy w =
    let all = record w {
      freed = true;
      cleaned = onto w.op.completions w.cleaned;
      op = record (w.op) { completions = []; has_data = false };
    } in
    assert (w.op.refcount == 0)
    >> (if w.op.has_data
        then done all
        else (assert (is_empty (w.op.completions)) >> done (record w { freed = true })))

-- `RawOp::drop_ref`.
unfoldable pub drop_ref : World → Outcome World
drop_ref w =
    let w' = record w { op = record (w.op) { refcount = w.op.refcount - 1 } } in
    let last = destroy w' in
    access w (assert (ltb 0 w.op.refcount) >> (if w'.op.refcount == 0 then last else done w'))

abbrev wake : Option ℕ → List ℕ → List ℕ
wake none ws = ws
wake (some k) ws = k ∷ ws

-- `RawOp::complete`, with `Header::take_waker` and `Header::set_complete`.
unfoldable pub push_completion : CqeResult → World → Outcome World
push_completion c w = access w (
    assert (not w.op.complete)
    >> done (record w {
      op = record (w.op) {
        completions = w.op.completions ++ (c ∷ []);
        complete = if c.more then w.op.complete else true;
        waker = none;
      };
      woken = wake (w.op.waker) w.woken;
    }))

-- `complete_operation` and `RawOpRef::complete`: the reference goes with the last completion.
unfoldable pub complete : CqeResult → World → Outcome World
complete c w = do
  w' ← push_completion c w
  if c.more then done w' else drop_ref (record w' { kernel = false })

-- `TypedHandle::register_waker`.
abbrev register_waker : ℕ → World → World
register_waker k w = record w { op = record (w.op) { waker = some k } }

-- The loop of `try_complete` over the completions. Before the last one it calls `update`, which panics
-- unless a `Singleshot` overrides it, and none does.
unfoldable pub resolve : List CqeResult → List CqeResult → Outcome (CqeResult × List CqeResult)
resolve [] ds = panic
resolve (c ∷ []) ds = assert (not c.more) >> done (c, c ∷ ds)
resolve (c ∷ d ∷ cs) ds = panic

unfoldable pub try_complete : World → Outcome (CqeResult × World)
try_complete w = do
  assert w.op.has_data
  r ← resolve w.op.completions w.delivered
  done
      (r.0, record w { op = record (w.op) { completions = []; has_data = false }; delivered = r.1 })

abbrev poll_complete : Bool → ℕ → World → Outcome (Option CqeResult × World)
poll_complete true k w = try_complete w >>= λ r. done (some r.0, r.1)
poll_complete false k w = done (none, register_waker k w)

-- `Stage::poll` of a `Singleshot`; `none` is `Poll::Pending`.
unfoldable pub poll : ℕ → World → Outcome (Option CqeResult × World)
poll k w = elim w.freed [ true ↦ fault | false ↦ poll_complete (w.op.complete) k w ]

unfoldable pub pop_from : CqeResult → List CqeResult → CqeResult × List CqeResult
pop_from c [] = (c, [])
pop_from c (d ∷ ds) = let r = pop_from d ds in (r.0, c ∷ r.1)

-- `SmallVec::pop`, which takes the last.
unfoldable pub pop : List CqeResult → Option (CqeResult × List CqeResult)
pop [] = none
pop (c ∷ cs) = some (pop_from c cs)

pub data Next : Type 0 where
  item : CqeResult → Next
  ended pending : Next

abbrev next_after : Option (CqeResult × List CqeResult) → ℕ → World → Outcome (Next × World)
next_after (some r) k w =
    assert w.op.has_data
    >> done (
      item r.0,
      record w { op = record (w.op) { completions = r.1 }; delivered = r.0 ∷ w.delivered },
    )
next_after none k w = done (if w.op.complete then (ended, w) else (pending, register_waker k w))

-- `Stage::poll_next` of a `Multishot`.
unfoldable pub poll_next : ℕ → World → Outcome (Next × World)
poll_next k w = elim w.freed [ true ↦ fault | false ↦ next_after (pop (w.op.completions)) k w ]

-- The drop of the `TypedHandle`, with the future.
unfoldable pub drop_handle : World → Outcome World
drop_handle w = drop_ref (record w { handle = false })

-- What happens to an operation: the kernel completes it, its future is polled, and is dropped. The
-- flag tells a `Singleshot` from a `Multishot`.
pub data Action : Type 0 where
  completes : CqeResult → Action
  polls : ℕ → Action
  drops : Action

unfoldable pub perform : Bool → Action → World → Outcome World
perform single (completes c) w = complete c w
perform true (polls k) w = poll k w >>= λ r. done r.1
perform false (polls k) w = poll_next k w >>= λ r. done r.1
perform single drops w = drop_handle w
