-- ===== src/Uring/Net/Incoming.antt =====
-- `Incoming` of norn-uring/src/net/tcp.rs: the stream of the connections to a listener, which arms a
-- multi-shot accept when it has none. `room` is what the push of a new accept is answered with. The
-- accepts that the stream has dropped stay as the kernel and the reactor still know them.
pub mod Accepts
pub mod Kept
mod Tests
use faser.Prelude.{
  ℕ, Bool, true, false, not, ◌||◌, ◌&&◌, zero, suc, if◌then◌else◌, Option, none, some, List, [],
  ◌∷◌, Outcome, done, panic, ◌>>=◌,
}
use faser.Uring.Entry.{FdKind}
use faser.Uring.Operation.{CqeResult, World, Next, item, ended, pending, drop_handle, drop_ref}
use faser.Uring.Operation
use faser.Uring.Net.{SockAddr, Output, failed, accepting}
use faser.Uring.Net

-- `Op<Accept<true>>`.
pub record Accept : Type 0 where
  pub submitted : Bool
  pub world : World

-- A dropped accept, and if its drop has requested that it be cancelled.
pub record Past : Type 0 where
  pub world : World
  pub cancelled : Bool

-- `yielded` are the completions that the application was given, the latest first.
pub record Incoming : Type 0 where
  pub listener : FdKind
  pub addr : SockAddr
  pub current : Option Accept
  pub past : List Past
  pub yielded : List CqeResult

-- `TcpListener::incoming`.
unfoldable pub incoming : FdKind → SockAddr → Incoming
incoming f a = record { listener = f; addr = a; current = none; past = []; yielded = [] }

-- `Socket::accept_multi`.
unfoldable pub accept_multi : Accept
accept_multi = record { submitted = false; world = Operation.new }

-- `Op::poll_next`.
unfoldable pub poll_accept : Bool → ℕ → Accept → Outcome (Next × Accept)
poll_accept room k o =
    let r = Operation.poll_next k o.world in
    if o.submitted || room
    then (r >>= λ x. done (x.0, record { submitted = true; world = x.1 }))
    else done (pending, o)

-- `Op::drop`: an accept that was submitted and has not ended is cancelled; of one that was not, the
-- entry goes with its reference.
unfoldable pub drop_accept : Bool → Accept → Outcome Past
drop_accept complete o = do
  w ← drop_handle o.world
  w' ← if o.submitted then done w else drop_ref (record w { kernel = false })
  done (record { world = w'; cancelled = o.submitted && not complete })

-- `None`, an item, or `Poll::Pending`.
pub data Polled : Type 0 where
  yields : Output → Polled
  ends waits : Polled

abbrev pub left : Past → Incoming → Incoming
left p s = record s { current = none; past = p ∷ s.past }

abbrev pub gave : CqeResult → Incoming → Incoming
gave c s = record s { yielded = c ∷ s.yielded }

-- An item of the accept: an error ends its use.
abbrev pub yielded_as : Output → Accept → Incoming → Outcome (Polled × Incoming)
yielded_as (failed e) o s = drop_accept false o >>= λ p. done (yields (failed e), left p s)
yielded_as x o s = done (yields x, record s { current = some o })

abbrev pub answered : Next × Accept → Incoming → Outcome (Polled × Incoming)
answered (item c, o) s =
    Net.complete (accepting true s.listener s.addr) (record { result = c.result; bid = none })
    >>= λ x. yielded_as x o (gave c s)
answered (ended, o) s = drop_accept true o >>= λ p. done (ends, left p s)
answered (pending, o) s = done (waits, record s { current = some o })

abbrev pub armed : Option Accept → Accept
armed (some o) = o
armed none = accept_multi

-- `Incoming::poll_next`; the loop comes round once, after it has armed an accept.
unfoldable pub poll_next : Bool → ℕ → Incoming → Outcome (Polled × Incoming)
poll_next room k s = poll_accept room k (armed s.current) >>= λ r. answered r s

abbrev pub drop_current : Option Accept → Incoming → Outcome Incoming
drop_current none s = done s
drop_current (some o) s = drop_accept false o >>= λ p. done (left p s)

-- The kernel completes the accept that is armed, or one that was dropped.
abbrev pub complete_current : CqeResult → Option Accept → Incoming → Outcome Incoming
complete_current c none s = panic
complete_current c (some o) s = Operation.complete c o.world >>= λ w.
    done (record s { current = some (record o { world = w }) })

unfoldable pub complete_past : ℕ → CqeResult → List Past → Outcome (List Past)
complete_past i c [] = panic
complete_past zero c (p ∷ ps) =
    Operation.complete c p.world >>= λ w. done (record p { world = w } ∷ ps)
complete_past (suc i) c (p ∷ ps) = complete_past i c ps >>= λ qs. done (p ∷ qs)

pub data Action : Type 0 where
  polls : Bool → ℕ → Action
  completes : CqeResult → Action
  completes_past : ℕ → CqeResult → Action
  drops : Action

unfoldable pub perform : Action → Incoming → Outcome Incoming
perform (polls room k) s = poll_next room k s >>= λ r. done r.1
perform (completes c) s = complete_current c s.current s
perform (completes_past i c) s = complete_past i c s.past >>= λ ps. done (record s { past = ps })
perform drops s = drop_current s.current s
