-- ===== src/Uring/Net/Streams/Tests.antt =====
-- Runs of the streams of norn-uring/src/net/tcp.rs.
use faser.Prelude.{
  ℕ, ◌-◌, ◌≡◌, ◌≤◌, refl, [], ◌∷◌, done, Ensures, min, leb, if◌then◌else◌, assert, ◌>>◌, arith,
}
use faser.Uring.Operation.{ok}
use faser.Uring.Net.Readiness.{
  item, pending, ready, waiting, Tried, success, would_block, poll_op, poll_ready, await_ready,
  Next, all_read_flags, all_write_flags,
}
use faser.Uring.Net.Readiness
use faser.Uring.Net.Streams.{
  ReadBuf, Call, recv, send, flush, shutdown_write, send_vectored, Os, TcpStream, into_stream,
  reads, perform, poll_read,
}
use faser.Uring.Net.Streams.Serving.{Fills, Sane, Served, sum, perform-Served}

-- A buffer by the number of its bytes that are unfilled, and of those of them that are initialized.
abbrev bufs : ReadBuf (ℕ × ℕ)
bufs = record {
  unfilled = λ b. b.0;
  assume_init = λ n b. (b.0, if leb n b.1 then b.1 else n);
  advance = λ n b. assert (leb n b.1) >> done (b.0 - n, b.1 - n);
}

bufs-Fills : Fills bufs
bufs-Fills = record { filled = λ n b h. ground arith }

-- Each call blocks once and then transfers up to three bytes.
abbrev transfers : Call → ℕ
transfers (recv n) = min 3 n
transfers (send n) = min 3 n
transfers (send_vectored ns) = min 3 (sum ns)
transfers c = 0

abbrev os : Os
os = record {
  tries = λ c. would_block ∷ success (transfers c) ∷ [];
  polls = λ flags. item (ok 1) ∷ pending ∷ [];
}

os-Sane : Sane os
os-Sane = record { within = within; stalling = λ flags. refl; enough = λ c flags. omega arith }
  where
    within : (c : Call) → transfers c ≤ faser.Uring.Net.Streams.Serving.limit c
    within (recv n) = omega arith
    within (send n) = omega arith
    within flush = omega arith
    within shutdown_write = omega arith
    within (send_vectored ns) = omega arith

perform-Served_example :
    Ensures (Served bufs os reads (8, 0) into_stream) (perform bufs os reads (8, 0) into_stream)
perform-Served_example = perform-Served bufs os reads (8, 0) into_stream bufs-Fills os-Sane

-- A read of a new stream: the call would block, the operation is armed and answers, and three bytes are
-- read.
read_three :
    Ensures
      (λ a. (a.answer ≡ ready (ok 0)) × (a.buf ≡ (5, 0)))
      (perform bufs os reads (8, 0) into_stream)
unfolding perform poll_read poll_op poll_ready await_ready into_stream Readiness.new
read_three = (refl, refl)
