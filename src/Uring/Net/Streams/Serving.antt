-- ===== src/Uring/Net/Streams/Serving.antt =====
-- What a poll of a `TcpStream` of norn-uring/src/net/tcp.rs comes to.
use faser.Prelude.{
  ℕ, ◌+◌, ◌≡◌, ◌≤◌, refl, true, Option, some, List, [], ◌∷◌, done, Ensures, Ensures-map, subst,
}
use faser.Uring.Operation.{IoResult, ok, err}
use faser.Uring.Net.Readiness.{
  ReadyStream, Next, Ready, ready, waiting, poll_op, all_read_flags, all_write_flags,
}
use faser.Uring.Net.Readiness.Settling.{length, stalls, first, Answers, poll_op-Answers}
use faser.Uring.Net.Streams.{
  ReadBuf, Call, recv, send, flush, shutdown_write, send_vectored, Os, TcpStream, Answer, read_into,
  poll_read, poll_writer, poll_write, poll_flush, poll_shutdown, poll_write_vectored, wrote, Method,
  reads, flushes, shuts, writes, writes_vectored, perform,
}

-- `ReadBuf`: bytes that are unfilled can be marked as initialized and then as filled.
pub record Fills {B : Type 0} (ops : ReadBuf B) : Type 0 where
  pub filled :
      (n : ℕ) (b : B)
      → n ≤ ops.unfilled b
      → Ensures (λ b'. ops.unfilled b' + n ≡ ops.unfilled b) (ops.advance n (ops.assume_init n b))

abbrev pub sum : List ℕ → ℕ
sum [] = 0
sum (n ∷ ns) = n + sum ns

-- The most that a call can transfer.
abbrev pub limit : Call → ℕ
limit (recv n) = n
limit (send n) = n
limit (send_vectored ns) = sum ns
limit c = 0

abbrev Within : ℕ → Option IoResult → Type 0
Within l (some (ok n)) = n ≤ l
Within l x = Unit

-- The socket does not transfer more than it is given, and there are enough answers: the armed
-- operation is pending some time, and calls that would block do not run out before.
pub record Sane (os : Os) : Type 0 where
  pub within : (c : Call) → Within (limit c) (first (os.tries c))
  pub stalling : (flags : ℕ) → stalls (os.polls flags) ≡ true
  pub enough : (c : Call) (flags : ℕ) → length (os.polls flags) ≤ length (os.tries c)

-- The call of a method, if `l` bytes of the buffer are unfilled.
abbrev pub call_of : ℕ → Method → Call
call_of l reads = recv l
call_of l (writes n) = send n
call_of l flushes = flush
call_of l shuts = shutdown_write
call_of l (writes_vectored ns) = send_vectored ns

-- After a read: it has filled what was received, or it has not touched the buffer.
abbrev pub Filled :
    {B : Type 0}
    → ReadBuf B
    → Option IoResult
    → List Next
    → B
    → Ready IoResult
    → B
    → ReadyStream
    → Type 0
Filled ops x ns b (ready (ok m)) b' r =
    (n : ℕ) × (x ≡ some (ok n)) × (ops.unfilled b' + n ≡ ops.unfilled b) × (r.notified ≡ true)
Filled ops x ns b (ready (err e)) b' r = (b' ≡ b) × Answers x ns (ready (err e), [], r)
Filled ops x ns b waiting b' r = (b' ≡ b) × Answers x ns (waiting, [], r)

abbrev pub Bounded : ℕ → Ready IoResult → Type 0
Bounded l (ready (ok n)) = n ≤ l
Bounded l x = Unit

-- A read uses the reader, and every other method the writer.
abbrev pub Served : {B : Type 0} → ReadBuf B → Os → Method → B → TcpStream → Answer B → Type 0
Served ops os reads b s a =
    Filled ops (first (os.tries (recv (ops.unfilled b)))) (os.polls all_read_flags) b a.answer a.buf
      a.stream.reader
    × (a.stream.writer ≡ s.writer)
Served ops os m b s a =
    (a.buf ≡ b)
    × (a.stream.reader ≡ s.reader)
    × Answers (first (os.tries (call_of (ops.unfilled b) m))) (os.polls all_write_flags)
        (a.answer, [], a.stream.writer)
    × Bounded (limit (call_of (ops.unfilled b) m)) a.answer

read_into-Filled :
    {B : Type 0} (ops : ReadBuf B) (x : Option IoResult) (ns : List Next) (b : B) (s : TcpStream)
    → Fills ops
    → Within (ops.unfilled b) x
    → (r : Ready IoResult × List Next × ReadyStream) → Answers x ns r
    → Ensures
        (λ a. Filled ops x ns b a.answer a.buf a.stream.reader × (a.stream.writer ≡ s.writer))
        (read_into ops b s r)
read_into-Filled ops x ns b s v w (waiting, ms, r) h = ((refl, h), refl)
read_into-Filled ops x ns b s v w (ready (err e), ms, r) h = ((refl, h), refl)
read_into-Filled ops x ns b s v w (ready (ok n), ms, r) h =
    Ensures-map (λ b'. ops.unfilled b' + n ≡ ops.unfilled b)
      (λ a. Filled ops x ns b a.answer a.buf a.stream.reader × (a.stream.writer ≡ s.writer))
      (λ b'. done (record { answer = ready (ok 0); buf = b'; stream = record s { reader = r } }))
      (ops.advance n (ops.assume_init n b)) (λ b' e. ((n, h.0, e, h.1), refl))
      (v.filled n b (subst (Within (ops.unfilled b)) h.0 w))

wrote-Bounded :
    {B : Type 0} (x : Option IoResult) (ns : List Next) (l : ℕ) (b : B) (s : TcpStream)
    → Within l x
    → (r : Ready IoResult × List Next × ReadyStream) → Answers x ns r
    → Answers x ns ((wrote b s r).answer, [], (wrote b s r).stream.writer)
      × Bounded l (wrote b s r).answer
wrote-Bounded x ns l b s w (waiting, ms, r) h = (h, tt)
wrote-Bounded x ns l b s w (ready (err e), ms, r) h = (h, tt)
wrote-Bounded x ns l b s w (ready (ok n), ms, r) h = (h, subst (Within l) h.0 w)

writer-Served :
    {B : Type 0} (os : Os) (c : Call) (b : B) (s : TcpStream)
    → Sane os
    → Ensures
        (λ a.
          (a.buf ≡ b)
          × (a.stream.reader ≡ s.reader)
          × Answers (first (os.tries c)) (os.polls all_write_flags) (a.answer, [], a.stream.writer)
          × Bounded (limit c) a.answer)
        (poll_writer c os b s)
writer-Served os c b s v =
    Ensures-map (Answers (first (os.tries c)) (os.polls all_write_flags)) _
      (λ r. done (wrote b s r)) (poll_op (os.tries c) (os.polls all_write_flags) s.writer)
      (λ r h.
        let w =
          wrote-Bounded (first (os.tries c)) (os.polls all_write_flags) (limit c) b s (v.within c) r
            h in
        (refl, refl, w.0, w.1))
      (poll_op-Answers (os.tries c) (os.polls all_write_flags) s.writer (v.stalling all_write_flags)
        (v.enough c all_write_flags))

read-Served :
    {B : Type 0} (ops : ReadBuf B) (os : Os) (b : B) (s : TcpStream)
    → Fills ops
    → Sane os
    → Ensures (Served ops os reads b s) (poll_read ops os b s)
unfolding poll_read
read-Served ops os b s f v =
    let c = recv (ops.unfilled b) in
    Ensures-map (Answers (first (os.tries c)) (os.polls all_read_flags)) (Served ops os reads b s)
      (read_into ops b s) (poll_op (os.tries c) (os.polls all_read_flags) s.reader)
      (read_into-Filled ops (first (os.tries c)) (os.polls all_read_flags) b s f (v.within c))
      (poll_op-Answers (os.tries c) (os.polls all_read_flags) s.reader (v.stalling all_read_flags)
        (v.enough c all_read_flags))

-- A poll of a `TcpStream` (a read, write, vectored write, flush or shutdown) ends without a panic
-- if calls that would block do not run out before the answers of the armed operation, which is
-- pending some time. It is pending only when its half of the stream, the reader for a read and the
-- writer otherwise, waits for an armed operation; else it answers as the first call on the socket
-- that does not block, or with an error of the operation. The other half is untouched. A read
-- fills exactly the bytes received, and leaves the buffer alone when it is pending or fails; a
-- write reports no more bytes than it was given. A call transfers no more than its buffers hold,
-- and the buffer of tokio can be filled as far as it is unfilled.
pub perform-Served :
    {B : Type 0} (ops : ReadBuf B) (os : Os) (m : Method) (b : B) (s : TcpStream)
    → Fills ops
    → Sane os
    → Ensures (Served ops os m b s) (perform ops os m b s)
unfolding perform poll_write poll_flush poll_shutdown poll_write_vectored
perform-Served ops os reads b s f v = read-Served ops os b s f v
perform-Served ops os (writes n) b s f v = writer-Served os (send n) b s v
perform-Served ops os flushes b s f v = writer-Served os flush b s v
perform-Served ops os shuts b s f v = writer-Served os shutdown_write b s v
perform-Served ops os (writes_vectored ns) b s f v = writer-Served os (send_vectored ns) b s v
