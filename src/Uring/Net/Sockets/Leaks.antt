-- ===== src/Uring/Net/Sockets/Leaks.antt =====
-- Where the handles of the sockets go that the methods of norn-uring/src/net make.
use faser.Prelude.{ℕ, suc, ◌≡◌, true, false, Option, some, List, [], ◌∷◌, ◌++◌, Ensures, arith}
use faser.Uring.Entry.{FdKind}
use faser.Uring.Net.{SockAddr, Given, open_fd, complete, cleanup, configure}
use faser.Uring.Net.Sockets.{
  socket, peer, Result, won, Script, Run, Kernel, run, listener_bind, udp_bind, listener_accept,
  tcp_connect, tcp_shutdown, open_socket_then, bind_then, Shutdown,
}

-- The descriptors that a method hands over.
abbrev pub handed : Option Result → List Given
handed (some (won (socket f))) = open_fd f ∷ []
handed (some (won (peer f a))) = open_fd f ∷ []
handed r = []

-- The handle of what the kernel made is handed over or dropped.
abbrev pub Owned : Run → Type 0
Owned x = x.made ≡ handed x.result ++ x.dropped

-- The methods that make a socket, and the shutdown.
pub data Method : Type 0 where
  listens : SockAddr → ℕ → ℕ → Method
  binds : SockAddr → ℕ → Method
  accepts : FdKind → SockAddr → Method
  connects : SockAddr → ℕ → Method
  shuts : FdKind → Shutdown → Method

abbrev pub script : Method → Script
script (listens a domain backlog) = listener_bind a domain backlog
script (binds a domain) = udp_bind a domain
script (accepts f a) = listener_accept f a
script (connects a domain) = tcp_connect a domain
script (shuts f how) = tcp_shutdown f how

-- The address of a peer is one of IPv4 or IPv6, and a connect is not dropped while it connects.
abbrev pub Calm : Kernel → ℕ → Method → Type 0
Calm k n (accepts f a) = a.is_ip ≡ true
Calm k n (connects a domain) = k.abandons (suc n) ≡ false
Calm k n m = Unit

shuts-Owned :
    (k : Kernel) (n : ℕ) (f : FdKind) (how : Shutdown)
    → Ensures Owned (run k n (tcp_shutdown f how))
unfolding run tcp_shutdown complete cleanup configure
shuts-Owned k n f how = ground arith

binds-Owned :
    (k : Kernel) (n : ℕ) (a : SockAddr) (domain : ℕ) → Ensures Owned (run k n (udp_bind a domain))
unfolding run udp_bind bind_then open_socket_then complete cleanup configure
binds-Owned k n a domain = ground arith

listens-Owned :
    (k : Kernel) (n : ℕ) (a : SockAddr) (domain backlog : ℕ)
    → Ensures Owned (run k n (listener_bind a domain backlog))
unfolding run listener_bind bind_then open_socket_then complete cleanup configure
listens-Owned k n a domain backlog = ground arith

accepts-Owned :
    (k : Kernel) (n : ℕ) (f : FdKind) (a : SockAddr)
    → a.is_ip ≡ true
    → Ensures Owned (run k n (listener_accept f a))
unfolding run listener_accept complete cleanup configure
accepts-Owned k n f a h = ground arith

connects-Owned :
    (k : Kernel) (n : ℕ) (a : SockAddr) (domain : ℕ)
    → k.abandons (suc n) ≡ false
    → Ensures Owned (run k n (tcp_connect a domain))
unfolding run tcp_connect open_socket_then complete cleanup configure
connects-Owned k n a domain h = ground arith

-- `TcpListener::bind`, `UdpSocket::bind`, `TcpListener::accept`, `TcpSocket::connect` and
-- `TcpSocket::shutdown` lose no handle of a socket: whatever the kernel answers to their
-- operations and calls, and wherever the future is dropped, no step panics, and the descriptors
-- that the kernel made are the one whose handle the method returns, if it does, and those whose
-- only handle is dropped, each once. The address of an accepted peer is one of IPv4 or IPv6, and a
-- connect is not dropped while it connects. What the drop of a handle asks of the kernel is not
-- part of this.
pub run-Owned : (k : Kernel) (n : ℕ) (m : Method) → Calm k n m → Ensures Owned (run k n (script m))
run-Owned k n (listens a domain backlog) h = listens-Owned k n a domain backlog
run-Owned k n (binds a domain) h = binds-Owned k n a domain
run-Owned k n (accepts f a) h = accepts-Owned k n f a h
run-Owned k n (connects a domain) h = connects-Owned k n a domain h
run-Owned k n (shuts f how) h = shuts-Owned k n f how
