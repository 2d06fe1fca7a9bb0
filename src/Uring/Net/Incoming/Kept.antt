-- ===== src/Uring/Net/Incoming/Kept.antt =====
-- What becomes of the connections that the kernel accepts for a stream of norn-uring/src/net/tcp.rs.
use faser.Prelude.{
  ℕ, zero, suc, ◌+◌, ◌≡◌, refl, Bool, true, false, Option, none, some, List, [], ◌∷◌, done, Ensures,
  Ensures-map, Ensures-weaken, count_if, arith, ◌>>=◌,
}
use faser.Uring.Operation.{
  IoResult, ok, err, CqeResult, World, Next, item, ended, pending, drop_handle, drop_ref, destroy,
  push_completion, pop, onto,
}
use faser.Uring.Operation
use faser.Uring.Operation.Shape.{count}
use faser.Uring.Net.{Output, failed, accepting}
use faser.Uring.Net
use faser.Uring.Net.Incoming.{
  Accept, Past, Incoming, accept_multi, poll_accept, drop_accept, yields, ends, left, gave,
  yielded_as, answered, armed, poll_next, drop_current, complete_current, complete_past, Action,
  polls, completes, completes_past, drops, perform,
}
use faser.Uring.Net.Incoming.Accepts.{
  kept, Held, Dropped, Polls, poll-Polls, drop-Drops, fresh-Held, complete-Held, complete-Dropped,
}

-- The accepts of a stream.
abbrev pub HeldIn : Option Accept → Type 0
HeldIn none = Unit
HeldIn (some o) = Held o

abbrev pub AllDropped : List Past → Type 0
AllDropped [] = Unit
AllDropped (p ∷ ps) = Dropped p × AllDropped ps

abbrev pub kept_in : (CqeResult → Bool) → Option Accept → ℕ
kept_in q none = 0
kept_in q (some o) = kept q o.world

abbrev pub kept_past : (CqeResult → Bool) → List Past → ℕ
kept_past q [] = 0
kept_past q (p ∷ ps) = kept q p.world + kept_past q ps

pub record Inv (s : Incoming) : Type 0 where
  pub current : HeldIn s.current
  pub past : AllDropped s.past

-- The completions that the application was given, that wait for it and that were cleaned up.
abbrev pub total : (CqeResult → Bool) → Incoming → ℕ
total q s = count q s.yielded + kept_in q s.current + kept_past q s.past

-- What is left of a stream with the accept `o` after something.
abbrev Left : (CqeResult → Bool) → Accept → Incoming → ℕ → Incoming → Type 0
Left q o s n s' =
    Inv s' × (total q s' ≡ count q s.yielded + kept q o.world + kept_past q s.past + n)

leaves :
    (q : CqeResult → Bool) (complete : Bool) (o : Accept) (s : Incoming)
    → Held o
    → (complete ≡ true → o.world.kernel ≡ false)
    → AllDropped s.past
    → Ensures (λ p. Left q o s 0 (left p s)) (drop_accept complete o)
leaves q complete o s v h a =
    Ensures-weaken (λ p. Dropped p × (kept q p.world ≡ kept q o.world))
      (λ p. Left q o s 0 (left p s)) (drop_accept complete o)
      (λ p d. (record { current = tt; past = (d.0, a) }, omega (arith, d.1)))
      (drop-Drops q complete o v h)

-- An item of an accept that is still held.
yields_by :
    (q : CqeResult → Bool) (x : IoResult) (o : Accept) (s : Incoming)
    → Held o
    → AllDropped s.past
    → Ensures
        (λ r. Left q o s 0 r.1)
        (Net.complete (accepting true s.listener s.addr) (record { result = x; bid = none })
          >>= λ y. yielded_as y o s)
unfolding Net.complete
yields_by q (ok n) o s v a = (record { current = v; past = a }, omega arith)
yields_by q (err e) o s v a =
    Ensures-map (λ p. Left q o s 0 (left p s)) (λ r. Left q o s 0 r.1)
      (λ p. done (yields (failed e), left p s)) (drop_accept false o) (λ p l. l)
      (leaves q false o s v (λ h. ground arith) a)

answered_by :
    (q : CqeResult → Bool) (o : Accept) (r : Next × Accept) (s : Incoming)
    → Polls q o r
    → AllDropped s.past
    → Ensures (λ y. Left q o s 0 y.1) (answered r s)
answered_by q o (item c, o') s v a =
    Ensures-weaken (λ y. Left q o' (gave c s) 0 y.1) (λ y. Left q o s 0 y.1)
      (answered (item c, o') s) (λ y l. (l.0, omega (arith, l.1, v.gain)))
      (yields_by q c.result o' (gave c s) v.held a)
answered_by q o (ended, o') s v a =
    Ensures-map (λ p. Left q o' s 0 (left p s)) (λ y. Left q o s 0 y.1) (λ p. done (ends, left p s))
      (drop_accept true o') (λ p l. (l.0, omega (arith, l.1, v.gain)))
      (leaves q true o' s v.held (λ h. v.over) a)
answered_by q o (pending, o') s v a = (record { current = v.held; past = a }, omega (arith, v.gain))

armed-Held : (o : Option Accept) → HeldIn o → Held (armed o)
armed-Held none v = fresh-Held
armed-Held (some o) v = v

armed-kept : (q : CqeResult → Bool) (o : Option Accept) → kept q (armed o).world ≡ kept_in q o
unfolding accept_multi Operation.new
armed-kept q none = refl
armed-kept q (some o) = refl

poll-Inv :
    (q : CqeResult → Bool) (room : Bool) (k : ℕ) (s : Incoming)
    → Inv s
    → Ensures (λ r. Inv r.1 × (total q r.1 ≡ total q s + 0)) (poll_next room k s)
unfolding poll_next
poll-Inv q room k s v =
    let o = armed s.current in
    Ensures-map (Polls q o) (λ r. Inv r.1 × (total q r.1 ≡ total q s + 0)) (λ r. answered r s)
      (poll_accept room k o)
      (λ r p.
        Ensures-weaken (λ y. Left q o s 0 y.1) (λ y. Inv y.1 × (total q y.1 ≡ total q s + 0))
          (answered r s) (λ y l. (l.0, omega (arith, l.1, armed-kept q s.current)))
          (answered_by q o r s p v.past))
      (poll-Polls q room k o (armed-Held s.current v.current))

-- The kernel completes what it still has.
abbrev pub Accepting : Option Accept → Type 0
Accepting none = ⊥
Accepting (some o) = (o.submitted ≡ true) × (o.world.kernel ≡ true)

abbrev pub Unfinished : ℕ → List Past → Type 0
Unfinished i [] = ⊥
Unfinished zero (p ∷ ps) = p.world.kernel ≡ true
Unfinished (suc i) (p ∷ ps) = Unfinished i ps

abbrev pub Permitted : Action → Incoming → Type 0
Permitted (completes c) s = Accepting s.current
Permitted (completes_past i c) s = Unfinished i s.past
Permitted a s = Unit

-- The completions that an action brings.
abbrev pub brought : (CqeResult → Bool) → Action → ℕ
brought q (completes c) = count_if (q c)
brought q (completes_past i c) = count_if (q c)
brought q a = 0

current-Inv :
    (q : CqeResult → Bool) (c : CqeResult) (s : Incoming) (o : Option Accept)
    → HeldIn o
    → AllDropped s.past
    → Accepting o
    → Ensures
        (λ s'.
          Inv s'
          × (total q s' ≡ count q s.yielded + kept_in q o + kept_past q s.past + count_if (q c)))
        (complete_current c o s)
current-Inv q c s none v a p = absurd p
current-Inv q c s (some o) v a p =
    Ensures-map (λ w. Held (record o { world = w }) × (kept q w ≡ kept q o.world + count_if (q c)))
      (λ s'. Left q o s (count_if (q c)) s')
      (λ w. done (record s { current = some (record o { world = w }) }))
      (Operation.complete c o.world)
      (λ w h. (record { current = h.0; past = a }, omega (arith, h.1)))
      (complete-Held q c o v p.0 p.1)

past-Inv :
    (q : CqeResult → Bool) (i : ℕ) (c : CqeResult) (ps : List Past)
    → AllDropped ps
    → Unfinished i ps
    → Ensures
        (λ qs. AllDropped qs × (kept_past q qs ≡ kept_past q ps + count_if (q c)))
        (complete_past i c ps)
unfolding complete_past
past-Inv q i c [] a p = absurd p
past-Inv q zero c (p ∷ ps) a h =
    Ensures-map
      (λ w. Dropped (record p { world = w }) × (kept q w ≡ kept q p.world + count_if (q c)))
      (λ qs. AllDropped qs × (kept_past q qs ≡ kept_past q (p ∷ ps) + count_if (q c)))
      (λ w. done (record p { world = w } ∷ ps)) (Operation.complete c p.world)
      (λ w d. ((d.0, a.1), omega (arith, d.1))) (complete-Dropped q c p a.0 h)
past-Inv q (suc i) c (p ∷ ps) a h =
    Ensures-map (λ qs. AllDropped qs × (kept_past q qs ≡ kept_past q ps + count_if (q c)))
      (λ qs. AllDropped qs × (kept_past q qs ≡ kept_past q (p ∷ ps) + count_if (q c)))
      (λ qs. done (p ∷ qs)) (complete_past i c ps) (λ qs d. ((a.0, d.0), omega (arith, d.1)))
      (past-Inv q i c ps a.1 h)

drop-Inv :
    (q : CqeResult → Bool) (s : Incoming) (o : Option Accept)
    → HeldIn o
    → AllDropped s.past
    → Ensures
        (λ s'. Inv s' × (total q s' ≡ count q s.yielded + kept_in q o + kept_past q s.past + 0))
        (drop_current o (record s { current = o }))
drop-Inv q s none v a = (record { current = tt; past = a }, omega arith)
drop-Inv q s (some o) v a =
    Ensures-map (λ p. Left q o s 0 (left p s)) (λ s'. Left q o s 0 s') (λ p. done (left p s))
      (drop_accept false o) (λ p l. l) (leaves q false o s v (λ h. ground arith) a)

-- No connection to a listener is lost from sight or handed over twice by the stream of
-- `TcpListener::incoming`: at every poll (with room for a new accept or none), completion of the
-- accept that is armed or of one that was dropped, and drop of the stream, nothing panics, and for
-- every test on completions the number of those that pass it and were given to the application,
-- wait for it in an accept or were cleaned up grows by one when the kernel brings such a
-- completion and is kept otherwise; an accept that the stream has dropped while the kernel has it
-- was cancelled, and is freed once the kernel is done. The invariant holds before, and the kernel
-- completes what it still has.
pub perform-Kept :
    (q : CqeResult → Bool) (a : Action) (s : Incoming)
    → Inv s
    → Permitted a s
    → Ensures (λ s'. Inv s' × (total q s' ≡ total q s + brought q a)) (perform a s)
unfolding perform
perform-Kept q (polls room k) s v p =
    Ensures-map (λ r. Inv r.1 × (total q r.1 ≡ total q s + 0))
      (λ s'. Inv s' × (total q s' ≡ total q s + 0)) (λ r. done r.1) (poll_next room k s) (λ r h. h)
      (poll-Inv q room k s v)
perform-Kept q (completes c) s v p = current-Inv q c s s.current v.current v.past p
perform-Kept q (completes_past i c) s v p =
    Ensures-map (λ qs. AllDropped qs × (kept_past q qs ≡ kept_past q s.past + count_if (q c)))
      (λ s'. Inv s' × (total q s' ≡ total q s + count_if (q c)))
      (λ qs. done (record s { past = qs })) (complete_past i c s.past)
      (λ qs d. (record { current = v.current; past = d.0 }, omega (arith, d.1)))
      (past-Inv q i c s.past v.past p)
perform-Kept q drops s v p = drop-Inv q s s.current v.current v.past
