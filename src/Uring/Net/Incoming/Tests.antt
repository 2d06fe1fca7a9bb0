-- ===== src/Uring/Net/Incoming/Tests.antt =====
-- Runs of the stream of connections of norn-uring/src/net/tcp.rs.
use faser.Prelude.{◌≡◌, refl, ◌+◌, Bool, true, false, some, [], ◌∷◌, map, Outcome, Ensures, ◌>>=◌}
use faser.Uring.Entry.{fd}
use faser.Uring.Operation.{CqeResult, IoResult, ok, err}
use faser.Uring.Operation
use faser.Uring.Net.{SockAddr, failed}
use faser.Uring.Net
use faser.Uring.Net.Incoming.Accepts.{new-Inv}
use faser.Uring.Net.Incoming.Kept.{Inv, Permitted, total, brought, perform-Kept}
use faser.Uring.Net.Incoming.{
  Incoming, incoming, poll_accept, drop_accept, Polled, yields, poll_next, completes, perform,
}

abbrev peer : SockAddr
peer = record { ptr = 4096; len = 128; is_ip = true }

abbrev cqe : IoResult → Bool → CqeResult
cqe x more = record { result = x; more = more }

-- A stream whose accept is submitted and waits.
abbrev armed_stream : Incoming
armed_stream = record (incoming (fd 3) peer) {
  current = some (record { submitted = true; world = Operation.new });
}

-- Two connections and then an error, before the next poll.
abbrev crowd : Outcome (Polled × Incoming)
crowd = do
  a ← perform (completes (cqe (ok 5) true)) armed_stream
  b ← perform (completes (cqe (ok 6) true)) a
  c ← perform (completes (cqe (err 24) false)) b
  poll_next true 9 c

-- The poll takes the error first, and both connections are closed without having been handed over.
crowd-lost :
    Ensures
      (λ r.
        (r.0 ≡ yields (failed 24))
        × (map (λ p. p.world.cleaned) r.1.past ≡ (cqe (ok 6) true ∷ cqe (ok 5) true ∷ []) ∷ []))
      crowd
unfolding perform poll_next poll_accept drop_accept Operation.complete Operation.push_completion
    Operation.new Operation.drop_ref Operation.poll_next Operation.pop Net.complete incoming
    Operation.pop_from Operation.drop_handle Operation.destroy
crowd-lost = (refl, refl)

armed_stream-Inv : Inv armed_stream
unfolding incoming Operation.new
armed_stream-Inv = record {
  current = record { inv = new-Inv; handle = refl; fresh = λ h. refl };
  past = tt;
}

armed_accepts : Permitted (completes (cqe (ok 5) true)) armed_stream
unfolding Operation.new
armed_accepts = (refl, refl)

perform-Kept_example :
    Ensures
      (λ s.
        Inv s
        × (total (λ c. c.more) s
            ≡ total (λ c. c.more) armed_stream
              + brought (λ c. c.more) (completes (cqe (ok 5) true))))
      (perform (completes (cqe (ok 5) true)) armed_stream)
perform-Kept_example =
    perform-Kept (λ c. c.more) (completes (cqe (ok 5) true)) armed_stream armed_stream-Inv
      armed_accepts
