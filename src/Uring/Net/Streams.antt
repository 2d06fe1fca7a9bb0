-- ===== src/Uring/Net/Streams.antt =====
-- `TcpStream` of norn-uring/src/net/tcp.rs with its halves, which read and write as tokio asks for it.
-- What the calls on the socket return one after another, and what the poll of the armed operation
-- answers, are functions of the call and of the events it waits for. The buffer of tokio is a parameter.
pub mod Serving
mod Tests
use faser.Prelude.{ℕ, ◌+◌, Bool, true, false, List, [], ◌∷◌, Outcome, done, ◌>>=◌}
use faser.Uring.Operation.{IoResult, ok, err}
use faser.Uring.Net.Readiness.{
  ReadyStream, Next, Ready, ready, waiting, Tried, poll_op, all_read_flags, all_write_flags,
}
use faser.Uring.Net.Readiness

-- `tokio::io::ReadBuf`: how many bytes are unfilled, and its operations.
pub record ReadBuf (B : Type 0) : Type 0 where
  pub unfilled : B → ℕ
  pub assume_init : ℕ → B → B
  pub advance : ℕ → B → Outcome B

-- A call on the socket, with the lengths of its buffers.
pub data Call : Type 0 where
  recv send : ℕ → Call
  flush shutdown_write : Call
  send_vectored : List ℕ → Call

pub record Os : Type 0 where
  pub tries : Call → List Tried
  pub polls : ℕ → List Next

pub record TcpStream : Type 0 where
  pub reader : ReadyStream
  pub writer : ReadyStream

-- `TcpSocket::into_stream`.
unfoldable pub into_stream : TcpStream
into_stream = record { reader = Readiness.new; writer = Readiness.new }

-- What a poll leaves: its answer, the buffer and the stream.
pub record Answer (B : Type 0) : Type 0 where
  pub answer : Ready IoResult
  pub buf : B
  pub stream : TcpStream

abbrev pub read_into :
    {B : Type 0}
    → ReadBuf B
    → B
    → TcpStream
    → Ready IoResult × List Next × ReadyStream
    → Outcome (Answer B)
read_into ops b s (ready (ok n), ns, r) = ops.advance n (ops.assume_init n b) >>= λ b'.
    done (record { answer = ready (ok 0); buf = b'; stream = record s { reader = r } })
read_into ops b s (ready (err e), ns, r) =
    done (record { answer = ready (err e); buf = b; stream = record s { reader = r } })
read_into ops b s (waiting, ns, r) =
    done (record { answer = waiting; buf = b; stream = record s { reader = r } })

-- `TcpStreamReader::poll_read`, as `TcpStream` calls it.
unfoldable pub poll_read : {B : Type 0} → ReadBuf B → Os → B → TcpStream → Outcome (Answer B)
poll_read ops os b s =
    poll_op (os.tries (recv (ops.unfilled b))) (os.polls all_read_flags) s.reader
    >>= read_into ops b s

abbrev pub wrote :
    {B : Type 0} → B → TcpStream → Ready IoResult × List Next × ReadyStream → Answer B
wrote b s (x, ns, r) = record { answer = x; buf = b; stream = record s { writer = r } }

-- A call through the writer, with the answer as it is.
abbrev pub poll_writer : {B : Type 0} → Call → Os → B → TcpStream → Outcome (Answer B)
poll_writer c os b s =
    poll_op (os.tries c) (os.polls all_write_flags) s.writer >>= λ r. done (wrote b s r)

-- `TcpStreamWriter::poll_write`.
unfoldable pub poll_write : {B : Type 0} → ℕ → Os → B → TcpStream → Outcome (Answer B)
poll_write n os b s = poll_writer (send n) os b s

-- `TcpStreamWriter::poll_flush`.
unfoldable pub poll_flush : {B : Type 0} → Os → B → TcpStream → Outcome (Answer B)
poll_flush os b s = poll_writer flush os b s

-- `TcpStreamWriter::poll_shutdown`.
unfoldable pub poll_shutdown : {B : Type 0} → Os → B → TcpStream → Outcome (Answer B)
poll_shutdown os b s = poll_writer shutdown_write os b s

-- `TcpStreamWriter::poll_write_vectored`.
unfoldable pub poll_write_vectored : {B : Type 0} → List ℕ → Os → B → TcpStream → Outcome (Answer B)
poll_write_vectored ns os b s = poll_writer (send_vectored ns) os b s

pub data Method : Type 0 where
  reads flushes shuts : Method
  writes : ℕ → Method
  writes_vectored : List ℕ → Method

unfoldable pub perform : {B : Type 0} → ReadBuf B → Os → Method → B → TcpStream → Outcome (Answer B)
perform ops os reads b s = poll_read ops os b s
perform ops os (writes n) b s = poll_write n os b s
perform ops os flushes b s = poll_flush os b s
perform ops os shuts b s = poll_shutdown os b s
perform ops os (writes_vectored ns) b s = poll_write_vectored ns os b s
