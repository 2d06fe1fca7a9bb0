-- ===== src/Uring/Net/Readiness/Settling.antt =====
-- What a poll of a `ReadyStream` of norn-uring/src/net/tcp.rs comes to.
use faser.Prelude.{
  ℕ, suc, ◌≡◌, ◌≤◌, ◌<◌, refl, Bool, true, false, Option, none, some, List, [], ◌∷◌, Outcome, done,
  Ensures, Ensures-map, ◌⊎◌, inl, inr, arith, ◌>>=◌, Ensures-weaken,
}
use faser.Uring.Operation.{IoResult, ok, err}
use faser.Uring.Net.Readiness.{
  ReadyStream, Next, item, ended, pending, Ready, ready, waiting, await_ready, poll_ready, Tried,
  success, would_block, failure, when_ready, poll_op,
}

abbrev pub length {ℓ} : {A : Type ℓ} → List A → ℕ
length [] = 0
length (x ∷ xs) = suc (length xs)

-- The armed operation is pending some time.
abbrev pub stalls : List Next → Bool
stalls [] = false
stalls (pending ∷ ns) = true
stalls (n ∷ ns) = stalls ns

-- The operation answers with this error.
abbrev pub Fails : ℕ → List Next → Type 0
Fails e [] = ⊥
Fails e (item (err x) ∷ ns) = (x ≡ e) ⊎ Fails e ns
Fails e (n ∷ ns) = Fails e ns

-- The first call that does not block.
abbrev pub first : List Tried → Option IoResult
first [] = none
first (success n ∷ ts) = some (ok n)
first (failure e ∷ ts) = some (err e)
first (would_block ∷ ts) = first ts

-- What is left of the answers of the operation.
abbrev pub Later : List Next → List Next → Type 0
Later ns ms = (stalls ms ≡ true) × ((e : ℕ) → Fails e ms → Fails e ns)

-- After the loop of `poll_ready`: it waits with an armed operation that is pending, or it is ready, or
-- it fails with an error of the operation.
abbrev pub Awaits : List Next → Ready IoResult × List Next × ReadyStream → Type 0
Awaits ns (waiting, ms, s) = (s.armed ≡ true) × (s.notified ≡ false)
Awaits ns (ready (ok n), ms, s) =
    (s.armed ≡ true) × (s.notified ≡ true) × Later ns ms × (length ms < length ns)
Awaits ns (ready (err e), ms, s) = (s.armed ≡ true) × (s.notified ≡ false) × Fails e ns

Awaits-ended :
    (ns : List Next) (r : Ready IoResult × List Next × ReadyStream)
    → Awaits ns r
    → Awaits (ended ∷ ns) r
Awaits-ended ns (waiting, ms, s) h = h
Awaits-ended ns (ready (ok n), ms, s) h = (h.0, h.1, h.2, omega (arith, h.3))
Awaits-ended ns (ready (err e), ms, s) h = h

await_ready-Awaits :
    (ns : List Next) (s : ReadyStream)
    → s.notified ≡ false
    → stalls ns ≡ true
    → Ensures (Awaits ns) (await_ready ns s)
unfolding await_ready
await_ready-Awaits [] s f h = ground arith
await_ready-Awaits (pending ∷ ns) s f h = (refl, f)
await_ready-Awaits (item (ok e) ∷ ns) s f h = (refl, refl, (h, λ x f. f), omega arith)
await_ready-Awaits (item (err e) ∷ ns) s f h = (refl, f, inl refl)
await_ready-Awaits (ended ∷ ns) s f h =
    Ensures-weaken (Awaits ns) (Awaits (ended ∷ ns)) (await_ready ns (record s { armed = false }))
      (Awaits-ended ns) (await_ready-Awaits ns (record s { armed = false }) f h)

-- After a poll of the readiness.
abbrev pub Readies : List Next → Ready IoResult × List Next × ReadyStream → Type 0
Readies ns (waiting, ms, s) = (s.armed ≡ true) × (s.notified ≡ false)
Readies ns (ready (ok n), ms, s) = (s.notified ≡ true) × Later ns ms × (length ms ≤ length ns)
Readies ns (ready (err e), ms, s) = (s.armed ≡ true) × (s.notified ≡ false) × Fails e ns

Readies-Awaits :
    (ns : List Next) (r : Ready IoResult × List Next × ReadyStream) → Awaits ns r → Readies ns r
Readies-Awaits ns (waiting, ms, s) h = h
Readies-Awaits ns (ready (ok n), ms, s) h = (h.1, h.2, omega (arith, h.3))
Readies-Awaits ns (ready (err e), ms, s) h = h

ready_by :
    (b : Bool) (ns : List Next) (s : ReadyStream)
    → s.notified ≡ b
    → stalls ns ≡ true
    → Ensures (Readies ns) (elim b [ true ↦ done (ready (ok 0), ns, s) | false ↦ await_ready ns s ])
ready_by true ns s f h = (f, (h, λ e x. x), omega arith)
ready_by false ns s f h =
    Ensures-weaken (Awaits ns) (Readies ns) (await_ready ns s) (Readies-Awaits ns)
      (await_ready-Awaits ns s f h)

poll_ready-Readies :
    (ns : List Next) (s : ReadyStream) → stalls ns ≡ true → Ensures (Readies ns) (poll_ready ns s)
unfolding poll_ready
poll_ready-Readies ns s h = ready_by s.notified ns s refl h

-- Of a stream that is not notified, a poll of the readiness is the loop.
quiet_ready :
    (ns : List Next) (s : ReadyStream)
    → s.notified ≡ false
    → stalls ns ≡ true
    → Ensures (Awaits ns) (poll_ready ns s)
unfolding poll_ready
quiet_ready ns s f h = rw (Ensures, f) (await_ready-Awaits ns s f h)

-- What a poll of an operation on the socket answers, if `x` is what the first call that does not
-- block returns.
abbrev pub Answers : Option IoResult → List Next → Ready IoResult × List Next × ReadyStream → Type 0
Answers x ns (waiting, ms, s) = (s.armed ≡ true) × (s.notified ≡ false)
Answers x ns (ready (ok n), ms, s) = (x ≡ some (ok n)) × (s.notified ≡ true)
Answers x ns (ready (err e), ms, s) =
    ((x ≡ some (err e)) × (s.notified ≡ true))
    ⊎ ((s.armed ≡ true) × (s.notified ≡ false) × Fails e ns)

decided :
    (x : IoResult) (ns : List Next) (r : Ready IoResult × List Next × ReadyStream)
    → Readies ns r
    → Ensures (Answers (some x) ns) (when_ready r (λ ms s. done (ready x, ms, s)))
decided x ns (waiting, ms, s) h = h
decided (ok m) ns (ready (ok n), ms, s) h = (refl, h.0)
decided (err m) ns (ready (ok n), ms, s) h = inl (refl, h.0)
decided x ns (ready (err n), ms, s) h = inr h

Answers-later :
    (x : Option IoResult) (ns ms : List Next) (r : Ready IoResult × List Next × ReadyStream)
    → ((e : ℕ) → Fails e ms → Fails e ns)
    → Answers x ms r
    → Answers x ns r
Answers-later x ns ms (waiting, l, s) h a = a
Answers-later x ns ms (ready (ok n), l, s) h a = a
Answers-later x ns ms (ready (err e), l, s) h (inl a) = inl a
Answers-later x ns ms (ready (err e), l, s) h (inr a) = inr (a.0, a.1, h e a.2)

-- The rest of a poll, after a call that would block.
abbrev Goes :
    (List Next → ReadyStream → Outcome (Ready IoResult × List Next × ReadyStream))
    → Option IoResult
    → ℕ
    → Type 0
Goes f x l =
    (ms : List Next) (s : ReadyStream)
    → stalls ms ≡ true
    → length ms < l
    → Ensures (Answers x ms) (f ms s)

again :
    (f : List Next → ReadyStream → Outcome (Ready IoResult × List Next × ReadyStream))
    (x : Option IoResult) (ns : List Next)
    → Goes f x (length ns)
    → (q : Ready IoResult × List Next × ReadyStream) → Awaits ns q
    → Ensures (Answers x ns) (when_ready q f)
again f x ns g (waiting, ms, s) h = h
again f x ns g (ready (ok n), ms, s) h =
    Ensures-weaken (Answers x ms) (Answers x ns) (f ms s) (λ r a. Answers-later x ns ms r h.2.1 a)
      (g ms s h.2.0 h.3)
again f x ns g (ready (err e), ms, s) h = inr h

blocked :
    (f : List Next → ReadyStream → Outcome (Ready IoResult × List Next × ReadyStream))
    (x : Option IoResult) (ns : List Next)
    → Goes f x (length ns)
    → (r : Ready IoResult × List Next × ReadyStream) → Readies ns r
    → Ensures (Answers x ns) (
        when_ready r
          (λ ms s. poll_ready ms (record s { notified = false }) >>= λ q. when_ready q f))
blocked f x ns g (waiting, ms, s) h = h
blocked f x ns g (ready (ok n), ms, s) h =
    Ensures-map (Awaits ms) (Answers x ns) (λ q. when_ready q f)
      (poll_ready ms (record s { notified = false }))
      (λ q a.
        Ensures-weaken (Answers x ms) (Answers x ns) (when_ready q f)
          (λ r b. Answers-later x ns ms r h.1.1 b)
          (again f x ms (λ l t v u. g l t v (omega (arith, u, h.2))) q a))
      (quiet_ready ms (record s { notified = false }) refl h.1.0)
blocked f x ns g (ready (err e), ms, s) h = inr h

pub poll_op-Answers :
    (ts : List Tried) (ns : List Next) (s : ReadyStream)
    → stalls ns ≡ true
    → length ns ≤ length ts
    → Ensures (Answers (first ts) ns) (poll_op ts ns s)
unfolding poll_op
poll_op-Answers [] [] s h l = ground arith
poll_op-Answers [] (n ∷ ns) s h l = ground arith
poll_op-Answers (success n ∷ ts) ns s h l =
    Ensures-map (Readies ns) (Answers (some (ok n)) ns)
      (λ r. when_ready r (λ ms t. done (ready (ok n), ms, t))) (poll_ready ns s) (decided (ok n) ns)
      (poll_ready-Readies ns s h)
poll_op-Answers (failure e ∷ ts) ns s h l =
    Ensures-map (Readies ns) (Answers (some (err e)) ns)
      (λ r. when_ready r (λ ms t. done (ready (err e), ms, t))) (poll_ready ns s)
      (decided (err e) ns) (poll_ready-Readies ns s h)
poll_op-Answers (would_block ∷ ts) ns s h l =
    Ensures-map (Readies ns) (Answers (first ts) ns)
      (λ r.
        when_ready r (λ ms t.
          poll_ready ms (record t { notified = false }) >>= λ q. when_ready q (poll_op ts)))
      (poll_ready ns s)
      (blocked (poll_op ts) (first ts) ns
        (λ ms t v u. poll_op-Answers ts ms t v (omega (arith, u, l))))
      (poll_ready-Readies ns s h)
