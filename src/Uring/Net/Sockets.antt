-- ===== src/Uring/Net/Sockets.antt =====
-- The methods of `Socket` (norn-uring/src/net/socket.rs), `TcpListener` and `TcpSocket` (net/tcp.rs) and
-- `UdpSocket` (net/udp.rs) that make, connect and shut down sockets, as scripts of what they await and
-- call. The kernel's answers are functions of the number of the step. A method that is dropped while
-- it awaits an operation drops its locals; the operation is cleaned up when it completes.
pub mod Leaks
pub mod Requests
use faser.Prelude.{
  ℕ, suc, Bool, true, false, Option, none, some, List, [], ◌∷◌, ◌++◌, map, Outcome, done, panic,
  ◌>>=◌,
}
use faser.Uring.Entry.{FdKind, fd, fixed}
use faser.Uring.Operation.{IoResult, ok, err}
use faser.Uring.Net.{
  SockAddr, Request, open_socket, accepting, connecting, shutting, configure, Completion, Output,
  descriptor, accepted, finished, failed, complete, Given, open_fd, cleanup,
}
use faser.Uring.Net.Owning.{resources}

-- Calls that go to the kernel at once, through the crate socket2.
pub data Call : Type 0 where
  bind : SockAddr → Call
  listen : ℕ → Call

-- What a method returns; a socket is its descriptor.
pub data Value : Type 0 where
  unit : Value
  socket : FdKind → Value
  peer : FdKind → SockAddr → Value

pub data Result : Type 0 where
  won : Value → Result
  lost : ℕ → Result

-- `submits` has the sockets that the method owns meanwhile; `drops` is the end of a socket's scope.
pub data Script : Type 0 where
  returns : Result → Script
  submits : Request → List FdKind → (Output → Script) → Script
  calls : FdKind → Call → (IoResult → Script) → Script
  drops : FdKind → Script → Script
  unreachable : Script

abbrev opened : Output → (FdKind → Script) → Script
opened (descriptor f) k = k f
opened (failed e) k = returns (lost e)
opened o k = unreachable

-- `Socket::open` and the rest of its caller.
unfoldable pub open_socket_then : ℕ → ℕ → Option ℕ → (FdKind → Script) → Script
open_socket_then domain ty protocol k =
    submits (open_socket domain ty protocol) [] (λ o. opened o k)

-- A call on a socket that the method owns; `?` drops it after an error.
abbrev called : FdKind → IoResult → Script → Script
called f (ok n) k = k
called f (err e) k = drops f (returns (lost e))

-- `Socket::open`.
unfoldable pub opens : ℕ → ℕ → Option ℕ → Script
opens domain ty protocol = open_socket_then domain ty protocol (λ f. returns (won (socket f)))

-- `Socket::bind` and the rest of its caller.
unfoldable pub bind_then : SockAddr → ℕ → ℕ → (FdKind → Script) → Script
bind_then a domain ty k =
    open_socket_then domain ty none (λ f. calls f (bind a) (λ x. called f x (k f)))

-- `Type::STREAM` and `Type::DGRAM`.
abbrev pub stream : ℕ
stream = 1

abbrev pub dgram : ℕ
dgram = 2

-- `TcpListener::bind`.
unfoldable pub listener_bind : SockAddr → ℕ → ℕ → Script
listener_bind a domain backlog =
    bind_then a domain stream
      (λ f. calls f (listen backlog) (λ x. called f x (returns (won (socket f)))))

-- `UdpSocket::bind`.
unfoldable pub udp_bind : SockAddr → ℕ → Script
udp_bind a domain = bind_then a domain dgram (λ f. returns (won (socket f)))

abbrev accepted_as : Output → Script
accepted_as (accepted f a) = returns (won (peer f a))
accepted_as (failed e) = returns (lost e)
accepted_as o = unreachable

-- `TcpListener::accept`; the listener is borrowed. The address is where the kernel writes that of the
-- peer.
unfoldable pub listener_accept : FdKind → SockAddr → Script
listener_accept f a = submits (accepting false f a) [] accepted_as

abbrev connected : FdKind → Output → Script
connected f finished = returns (won (socket f))
connected f (failed e) = drops f (returns (lost e))
connected f o = unreachable

-- `TcpSocket::connect`.
unfoldable pub tcp_connect : SockAddr → ℕ → Script
tcp_connect a domain =
    open_socket_then domain stream none (λ f. submits (connecting f a) (f ∷ []) (connected f))

-- `std::net::Shutdown`, and the numbers of libc.
pub data Shutdown : Type 0 where
  read write both : Shutdown

abbrev pub how_of : Shutdown → ℕ
how_of read = 0
how_of write = 1
how_of both = 2

abbrev shut : Output → Script
shut finished = returns (won unit)
shut (failed e) = returns (lost e)
shut o = unreachable

-- `TcpSocket::shutdown`; the socket is borrowed.
unfoldable pub tcp_shutdown : FdKind → Shutdown → Script
tcp_shutdown f how = submits (shutting f (how_of how)) [] shut

-- A run: what is returned (nothing, if the method was dropped), what the kernel made meanwhile, and
-- what was dropped of it: the drop of the only handle of a socket asks the driver to close it.
pub record Run : Type 0 where
  pub result : Option Result
  pub made : List Given
  pub dropped : List Given

-- The kernel: the completion of the operation of a step, what a call returns, and if the method is
-- dropped in the step.
pub record Kernel : Type 0 where
  pub completes : ℕ → Completion
  pub call : ℕ → IoResult
  pub abandons : ℕ → Bool

abbrev ended : Result → Run
ended r = record { result = some r; made = []; dropped = [] }

abbrev with_made : List Given → Run → Outcome Run
with_made gs x = done (record x { made = gs ++ x.made })

abbrev with_dropped : List Given → Run → Outcome Run
with_dropped gs x = done (record x { dropped = gs ++ x.dropped })

abbrev pub all_fds : List FdKind → List Given
all_fds fs = map open_fd fs

abbrev abandoned : Request → Completion → List FdKind → Outcome Run
abandoned r c fs = do
  gs ← cleanup r c
  done (record { result = none; made = resources (configure r) c; dropped = gs ++ all_fds fs })

-- `Socket::as_socket` is not there for a fixed descriptor.
abbrev as_socket : FdKind → Outcome Run → Outcome Run
as_socket (fd n) m = m
as_socket (fixed n) m = panic

-- The run of a script from a step on.
unfoldable pub run : Kernel → ℕ → Script → Outcome Run
run k n (returns r) = done (ended r)
run k n (submits r fs f) = elim (k.abandons n) [
  | true ↦ abandoned r (k.completes n) fs
  | false ↦ complete r (k.completes n) >>= λ o.
      run k (suc n) (f o) >>= with_made (resources (configure r) (k.completes n))
]
run k n (calls f c g) = as_socket f (run k (suc n) (g (k.call n)))
run k n (drops f s) = run k n s >>= with_dropped (open_fd f ∷ [])
run k n unreachable = panic
