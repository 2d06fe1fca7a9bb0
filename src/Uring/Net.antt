-- ===== src/Uring/Net.antt =====
-- norn-uring/src/net/socket.rs: the operations on sockets. Each fills in a submission entry, makes the
-- output of the future from a completion, and cleans up after a completion that no future takes.
pub mod Owning
pub mod Readiness
pub mod Sockets
pub mod Incoming
pub mod Streams
use Prim.Native.Nat.{bit_or}
use faser.Prelude.{
  ℕ, Bool, true, false, if◌then◌else◌, Option, none, some, List, [], ◌∷◌, Outcome, done, panic,
  ◌>>=◌, ◌>>◌, assert, ◌%◌, ◌^◌,
}
use faser.Uring.Buf.{StableBuf, StableBufMut, bytes_remaining, set_init}
use faser.Uring.BufRing.{InnerBufRing, BufRingBuf, get_buf}
use faser.Uring.Entry.{
  FdKind, fd, Slice, Msghdr, Opcode, socket, recv, send, send_msg, recv_msg, accept, accept_multi,
  connect, shutdown, poll_add, Sqe, build,
}
use faser.Uring.Operation.{IoResult, ok, err}

-- `SockAddr` of the crate socket2: where it lies, and if it is an address of IPv4 or IPv6.
pub record SockAddr : Type 0 where
  pub ptr : ℕ
  pub len : ℕ
  pub is_ip : Bool

pub data Request : Type 0 where
  open_socket : ℕ → ℕ → Option ℕ → Request
  send_to : FdKind → StableBuf → Option SockAddr → Request
  recv_from : FdKind → StableBufMut → SockAddr → Request
  recv_from_ring : FdKind → ℕ → InnerBufRing → SockAddr → Request
  accepting : Bool → FdKind → SockAddr → Request
  connecting : FdKind → SockAddr → Request
  shutting : FdKind → ℕ → Request
  receiving : FdKind → StableBufMut → Request
  sending : FdKind → StableBuf → Request
  polling : Bool → FdKind → ℕ → Request

-- `libc::SOCK_NONBLOCK` and `libc::SOCK_CLOEXEC`.
abbrev pub sock_nonblock : ℕ
sock_nonblock = 2048

abbrev pub sock_cloexec : ℕ
sock_cloexec = 524288

abbrev pub place : SockAddr → Slice
place a = record { ptr = a.ptr; len = a.len }

abbrev pub name_of : Option SockAddr → Option Slice
name_of none = none
name_of (some a) = some (place a)

abbrev pub protocol_of : Option ℕ → ℕ
protocol_of none = 0
protocol_of (some p) = p

-- The pointer and the length of a buffer, as an `IoSlice` has them.
abbrev pub whole : StableBuf → Slice
whole b = record { ptr = b.stable_ptr; len = b.bytes_init }

abbrev pub rest : StableBufMut → Slice
rest b = record { ptr = b.ptr; len = bytes_remaining b }

-- `len as _`, into the 32 bits of an entry.
abbrev pub narrow : Slice → Slice
narrow s = record s { len = s.len % 2 ^ 32 }

abbrev open_socket_entry : ℕ → ℕ → Option ℕ → Sqe
open_socket_entry domain ty p =
    build (socket domain (bit_or (bit_or ty sock_nonblock) sock_cloexec) (protocol_of p))

abbrev send_to_entry : FdKind → StableBuf → Option SockAddr → Sqe
send_to_entry f b a = build (send_msg f (record { iov = whole b ∷ []; name = name_of a }))

abbrev recv_from_entry : FdKind → StableBufMut → SockAddr → Sqe
recv_from_entry f b a =
    build (recv_msg f (record { iov = rest b ∷ []; name = some (place a) }) none)

abbrev recv_from_ring_entry : FdKind → ℕ → SockAddr → Sqe
recv_from_ring_entry f bgid a =
    record (build (recv_msg f (record { iov = []; name = some (place a) }) (some bgid))) {
      buffer_select = true;
    }

-- The length of the address stands where `Accept` has a pointer to it.
abbrev accept_entry : Bool → FdKind → SockAddr → Sqe
accept_entry true f a = build (accept_multi f)
accept_entry false f a = build (accept f a.ptr a.len)

abbrev connect_entry : FdKind → SockAddr → Sqe
connect_entry f a = build (connect f (place a))

abbrev shutdown_entry : FdKind → ℕ → Sqe
shutdown_entry f how = build (shutdown f how)

abbrev recv_entry : FdKind → StableBufMut → Sqe
recv_entry f b = build (recv f (narrow (rest b)))

abbrev send_entry : FdKind → StableBuf → Sqe
send_entry f b = build (send f (narrow (whole b)))

abbrev poll_entry : Bool → FdKind → ℕ → Sqe
poll_entry multi f events = build (poll_add f events multi)

-- `Operation::configure`.
unfoldable pub configure : Request → Sqe
configure (open_socket domain ty p) = open_socket_entry domain ty p
configure (send_to f b a) = send_to_entry f b a
configure (recv_from f b a) = recv_from_entry f b a
configure (recv_from_ring f bgid r a) = recv_from_ring_entry f bgid a
configure (accepting multi f a) = accept_entry multi f a
configure (connecting f a) = connect_entry f a
configure (shutting f how) = shutdown_entry f how
configure (receiving f b) = recv_entry f b
configure (sending f b) = send_entry f b
configure (polling multi f events) = poll_entry multi f events

-- A completion: its result, and the buffer that its flags select.
pub record Completion : Type 0 where
  pub result : IoResult
  pub bid : Option ℕ

-- What the future, or the stream, hands to the application.
pub data Output : Type 0 where
  descriptor : FdKind → Output
  accepted : FdKind → SockAddr → Output
  sent : IoResult → StableBuf → Output
  received : IoResult → StableBufMut → Output
  received_from : IoResult → SockAddr → StableBufMut → Output
  ring_buffer : BufRingBuf → SockAddr → Output
  event : ℕ → Output
  finished : Output
  failed : ℕ → Output

abbrev or_else : IoResult → (ℕ → Outcome Output) → Outcome Output
or_else (ok n) f = f n
or_else (err e) f = done (failed e)

abbrev open_socket_output : IoResult → Outcome Output
open_socket_output x = or_else x (λ n. done (descriptor (fd n)))

abbrev recv_from_output : IoResult → StableBufMut → SockAddr → Outcome Output
recv_from_output (ok n) b a = assert a.is_ip >> done (received_from (ok n) a (set_init n b))
recv_from_output (err e) b a = done (received (err e) b)

abbrev recv_from_ring_output : IoResult → Option ℕ → InnerBufRing → SockAddr → Outcome Output
recv_from_ring_output x bid r a =
    or_else x (λ n. do b ← get_buf n bid r; assert a.is_ip; done (ring_buffer b a))

abbrev accept_output : IoResult → SockAddr → Outcome Output
accept_output x a = or_else x (λ n. assert a.is_ip >> done (accepted (fd n) a))

abbrev accept_multi_item : IoResult → Outcome Output
accept_multi_item x = or_else x (λ n. done (descriptor (fd n)))

abbrev connect_output : IoResult → Outcome Output
connect_output x = or_else x (λ n. done finished)

abbrev shutdown_output : IoResult → Outcome Output
shutdown_output x = or_else x (λ n. done finished)

abbrev recv_output : IoResult → StableBufMut → Outcome Output
recv_output (ok n) b = done (received (ok n) (set_init n b))
recv_output (err e) b = done (received (err e) b)

abbrev event_output : IoResult → Outcome Output
event_output x = or_else x (λ n. done (event (n % 2 ^ 16)))

-- `Singleshot::complete`, and `Multishot::update` of those with several completions.
unfoldable pub complete : Request → Completion → Outcome Output
complete (open_socket domain ty p) c = open_socket_output c.result
complete (send_to f b a) c = done (sent c.result b)
complete (recv_from f b a) c = recv_from_output c.result b a
complete (recv_from_ring f bgid r a) c = recv_from_ring_output c.result c.bid r a
complete (accepting true f a) c = accept_multi_item c.result
complete (accepting false f a) c = accept_output c.result a
complete (connecting f a) c = connect_output c.result
complete (shutting f how) c = shutdown_output c.result
complete (receiving f b) c = recv_output c.result b
complete (sending f b) c = done (sent c.result b)
complete (polling multi f events) c = event_output c.result

-- What the kernel makes and `cleanup` drops: the only handle of an open descriptor, whose drop asks the
-- driver to close it (fd.rs), or a buffer of a ring, which goes back into the ring.
pub data Given : Type 0 where
  open_fd : FdKind → Given
  recycled : BufRingBuf → Given

abbrev close_opened : IoResult → Outcome (List Given)
close_opened (ok n) = done (open_fd (fd n) ∷ [])
close_opened (err e) = done []

abbrev close_accepted : IoResult → Outcome (List Given)
close_accepted (ok n) = done (open_fd (fd n) ∷ [])
close_accepted (err e) = done []

abbrev close_connected : IoResult → Outcome (List Given)
close_connected (ok n) = done (open_fd (fd n) ∷ [])
close_connected (err e) = done []

abbrev recycle_made : IoResult → Option ℕ → InnerBufRing → Outcome (List Given)
recycle_made (ok n) bid r = get_buf n bid r >>= λ b. done (recycled b ∷ [])
recycle_made (err e) bid r = done []

-- `Operation::cleanup`.
unfoldable pub cleanup : Request → Completion → Outcome (List Given)
cleanup (open_socket domain ty p) c = close_opened c.result
cleanup (recv_from_ring f bgid r a) c = recycle_made c.result c.bid r
cleanup (accepting multi f a) c = close_accepted c.result
cleanup (connecting f a) c = close_connected c.result
cleanup r c = done []
