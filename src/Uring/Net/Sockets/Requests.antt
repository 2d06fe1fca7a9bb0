-- ===== src/Uring/Net/Sockets/Requests.antt =====
-- The methods of `Socket` of norn-uring/src/net/socket.rs that submit one operation and hand it on, with
-- the address where the kernel writes that of the peer.
use faser.Prelude.{ℕ, Bool, some}
use faser.Uring.Buf.{StableBuf, StableBufMut}
use faser.Uring.BufRing.{InnerBufRing}
use faser.Uring.Entry.{FdKind}
use faser.Uring.Net.{SockAddr, Request, receiving, sending, polling}
use faser.Uring.Net

unfoldable pub recv_from_ring : FdKind → InnerBufRing → SockAddr → Request
recv_from_ring f ring a = Net.recv_from_ring f ring.bgid ring a

unfoldable pub recv_from : FdKind → StableBufMut → SockAddr → Request
recv_from f b a = Net.recv_from f b a

unfoldable pub send_to : FdKind → StableBuf → SockAddr → Request
send_to f b a = Net.send_to f b (some a)

unfoldable pub recv : FdKind → StableBufMut → Request
recv f b = receiving f b

unfoldable pub send : FdKind → StableBuf → Request
send f b = sending f b

unfoldable pub poll_readiness : Bool → FdKind → ℕ → Request
poll_readiness multi f events = polling multi f events
