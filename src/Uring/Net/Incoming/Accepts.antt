-- ===== src/Uring/Net/Incoming/Accepts.antt =====
-- One accept of a stream of norn-uring/src/net/tcp.rs: its polls, its completions and its drop.
use faser.Prelude.{
  ℕ, ◌+◌, ◌≡◌, refl, Bool, true, false, ◌||◌, List, [], ◌∷◌, ◌++◌, Outcome, done, Ensures,
  Ensures-map, if◌then◌else◌, count_if, arith, ◌>>=◌,
}
use faser.Uring.Operation.{
  IoResult, ok, err, CqeResult, World, Next, item, ended, pending, drop_handle, drop_ref, destroy,
  push_completion, pop, onto,
}
use faser.Uring.Operation
use faser.Uring.Operation.Shape.{count, count-append, count-onto}
use faser.Uring.Operation.Safety
use faser.Uring.Operation.Results.{pop-count}
use faser.Uring.Net.Incoming.{accept_multi, Accept, Past, poll_accept, drop_accept}

-- The completions that pass a test and wait, or were cleaned up.
abbrev pub kept : (CqeResult → Bool) → World → ℕ
kept q w = count q w.cleaned + count q w.op.completions

-- An accept whose stream has it, and one that was dropped.
pub record Held (o : Accept) : Type 0 where
  pub inv : Safety.Inv false o.world
  pub handle : o.world.handle ≡ true
  pub fresh : o.submitted ≡ false → o.world.kernel ≡ true

pub record Dropped (p : Past) : Type 0 where
  pub inv : p.world.kernel ≡ true → Safety.Inv false p.world
  pub handle : p.world.handle ≡ false
  pub freed : p.world.kernel ≡ false → p.world.freed ≡ true
  pub asked : p.world.kernel ≡ true → p.cancelled ≡ true

-- After a poll of an accept.
abbrev pub gained : (CqeResult → Bool) → Next → ℕ
gained q (item c) = count_if (q c)
gained q n = 0

abbrev pub Over : Next → World → Type 0
Over ended w = w.kernel ≡ false
Over n w = Unit

pub record Nexts (q : CqeResult → Bool) (w : World) (r : Next × World) : Type 0 where
  pub inv : Safety.Inv false r.1
  pub handle : r.1.handle ≡ true
  pub gain : kept q w ≡ kept q r.1 + gained q r.0
  pub over : Over r.0 r.1

pub record Polls (q : CqeResult → Bool) (o : Accept) (r : Next × Accept) : Type 0 where
  pub held : Held r.1
  pub gain : kept q o.world ≡ kept q r.1.world + gained q r.0
  pub over : Over r.0 r.1.world

next_by :
    (q : CqeResult → Bool) (k : ℕ) (w : World) (cs : List CqeResult)
    → w.op.completions ≡ cs
    → Safety.Inv false w
    → w.handle ≡ true
    → Ensures (Nexts q w) (Operation.poll_next k w)
unfolding Operation.poll_next pop
next_by q k w [] e v h = ground arith
next_by q k w (c ∷ cs) e v h = ground (arith, pop-count q c cs)

abbrev submitted_with : Next × World → Outcome (Next × Accept)
submitted_with x = done (x.0, record { submitted = true; world = x.1 })

by_push :
    (q : CqeResult → Bool) (k : ℕ) (o : Accept) (b : Bool)
    → Held o
    → Ensures
        (Polls q o)
        (if b then (Operation.poll_next k o.world >>= submitted_with) else done (pending, o))
by_push q k o true v =
    Ensures-map (Nexts q o.world) (Polls q o) submitted_with (Operation.poll_next k o.world)
      (λ x n. record {
        held = record { inv = n.inv; handle = n.handle; fresh = λ h. ground arith };
        gain = n.gain;
        over = n.over;
      })
      (next_by q k o.world o.world.op.completions refl v.inv v.handle)
by_push q k o false v = record { held = v; gain = omega arith; over = tt }

pub poll-Polls :
    (q : CqeResult → Bool) (room : Bool) (k : ℕ) (o : Accept)
    → Held o
    → Ensures (Polls q o) (poll_accept room k o)
unfolding poll_accept
poll-Polls q room k o v = by_push q k o (o.submitted || room) v

pub drop-Drops :
    (q : CqeResult → Bool) (complete : Bool) (o : Accept)
    → Held o
    → (complete ≡ true → o.world.kernel ≡ false)
    → Ensures (λ p. Dropped p × (kept q p.world ≡ kept q o.world)) (drop_accept complete o)
unfolding drop_accept drop_handle drop_ref destroy
drop-Drops q complete o v h = ground (arith, count-onto q o.world.op.completions o.world.cleaned)

pub complete-Held :
    (q : CqeResult → Bool) (c : CqeResult) (o : Accept)
    → Held o
    → o.submitted ≡ true
    → o.world.kernel ≡ true
    → Ensures
        (λ w. Held (record o { world = w }) × (kept q w ≡ kept q o.world + count_if (q c)))
        (Operation.complete c o.world)
unfolding Operation.complete push_completion drop_ref destroy
complete-Held q c o v s h = ground (
  arith,
  count-append q o.world.op.completions (c ∷ []),
  count-onto q (o.world.op.completions ++ (c ∷ [])) o.world.cleaned,
)

pub complete-Dropped :
    (q : CqeResult → Bool) (c : CqeResult) (p : Past)
    → Dropped p
    → p.world.kernel ≡ true
    → Ensures
        (λ w. Dropped (record p { world = w }) × (kept q w ≡ kept q p.world + count_if (q c)))
        (Operation.complete c p.world)
unfolding Operation.complete push_completion drop_ref destroy
complete-Dropped q c p v h =
    let i = v.inv h in
    ground (
      arith,
      count-append q p.world.op.completions (c ∷ []),
      count-onto q (p.world.op.completions ++ (c ∷ [])) p.world.cleaned,
    )

pub new-Inv : Safety.Inv false Operation.new
unfolding Operation.new
new-Inv = record {
  counted = refl;
  memory = refl;
  finished = refl;
  data_there = λ h. refl;
  data_kept = λ h g. refl;
  taken = λ h. refl;
  still_open = λ h g. refl;
  final = λ h g d. ground arith;
}

pub fresh-Held : Held accept_multi
unfolding accept_multi Operation.new
fresh-Held = record { inv = new-Inv; handle = refl; fresh = λ h. refl }
