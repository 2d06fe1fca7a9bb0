-- ===== src/Uring/Net/Owning.antt =====
-- Who owns what the kernel makes for an operation of norn-uring/src/net/socket.rs: a descriptor, or the
-- bytes in a buffer of a ring.
use faser.Prelude.{
  ℕ, ◌≡◌, ◌≤◌, refl, Bool, true, false, Option, none, some, List, [], ◌∷◌, ◌++◌, done, Ensures,
  arith,
}
use faser.Uring.BufRing.{InnerBufRing, get_buf, ring_buf}
use faser.Uring.Entry.{fd, Opcode, socket, accept, accept_multi, open_at, Sqe}
use faser.Uring.Operation.{IoResult, ok, err}
use faser.Uring.Net.{
  Request, open_socket, send_to, recv_from, recv_from_ring, accepting, connecting, shutting,
  receiving, sending, polling, configure, Completion, Output, descriptor, accepted, ring_buffer,
  complete, Given, open_fd, recycled, cleanup,
}

-- The operations that answer with a descriptor that they made.
abbrev pub makes : Opcode → Bool
makes (socket d t p) = true
makes (accept f a l) = true
makes (accept_multi f) = true
makes (open_at p m) = true
makes o = false

abbrev made_fd : Bool → ℕ → List Given
made_fd true n = open_fd (fd n) ∷ []
made_fd false n = []

abbrev selected_buf : Bool → Option ℕ → ℕ → List Given
selected_buf true (some bid) n = recycled (record { bid = bid; len = n }) ∷ []
selected_buf b bid n = []

abbrev pub resources_of : Sqe → IoResult → Option ℕ → List Given
resources_of e (ok n) bid = made_fd (makes e.opcode) n ++ selected_buf e.buffer_select bid n
resources_of e (err x) bid = []

-- What the kernel made when it completed the entry.
abbrev pub resources : Sqe → Completion → List Given
resources e c = resources_of e c.result c.bid

-- What an output owns, and would give back when it is dropped.
abbrev pub owns : Output → List Given
owns (descriptor f) = open_fd f ∷ []
owns (accepted f a) = open_fd f ∷ []
owns (ring_buffer b a) = recycled b ∷ []
owns o = []

abbrev Selected : IoResult → Option ℕ → InnerBufRing → Type 0
Selected (ok n) none r = ⊥
Selected (ok n) (some bid) r = n ≤ r.buf_len
Selected (err e) bid r = Unit {0}

-- A completion as the kernel makes it: a receive into a ring selects a buffer and fits into it, and
-- the address of a peer is one of IPv4 or IPv6.
abbrev pub Proper : Request → Completion → Type 0
Proper (recv_from f b a) c = a.is_ip ≡ true
Proper (recv_from_ring f bgid r a) c = Selected c.result c.bid r × (a.is_ip ≡ true)
Proper (accepting m f a) c = a.is_ip ≡ true
Proper r c = Unit {0}

get_buf_lem :
    (n bid : ℕ) (r : InnerBufRing)
    → n ≤ r.buf_len
    → get_buf n (some bid) r ≡ done (record { bid = bid; len = n })
unfolding get_buf ring_buf
get_buf_lem n bid r h = ground arith

complete-Owns :
    (r : Request) (x : IoResult) (b : Option ℕ)
    → Proper r (record { result = x; bid = b })
    → Ensures
        (λ o. owns o ≡ resources_of (configure r) x b)
        (complete r (record { result = x; bid = b }))
unfolding configure complete
complete-Owns (open_socket d t p) (ok n) b h = refl
complete-Owns (open_socket d t p) (err e) b h = refl
complete-Owns (send_to f s a) (ok n) b h = refl
complete-Owns (send_to f s a) (err e) b h = refl
complete-Owns (recv_from f s a) (ok n) b h = rw (Ensures, h) refl
complete-Owns (recv_from f s a) (err e) b h = refl
complete-Owns (recv_from_ring f g r a) (ok n) none h = absurd h.0
complete-Owns (recv_from_ring f g r a) (ok n) (some b) h =
    rw (Ensures, get_buf_lem n b r h.0, h.1) refl
complete-Owns (recv_from_ring f g r a) (err e) b h = refl
complete-Owns (accepting true f a) (ok n) b h = refl
complete-Owns (accepting true f a) (err e) b h = refl
complete-Owns (accepting false f a) (ok n) b h = rw (Ensures, h) refl
complete-Owns (accepting false f a) (err e) b h = refl
complete-Owns (connecting f a) (ok n) b h = refl
complete-Owns (connecting f a) (err e) b h = refl
complete-Owns (shutting f w) (ok n) b h = refl
complete-Owns (shutting f w) (err e) b h = refl
complete-Owns (receiving f s) (ok n) b h = refl
complete-Owns (receiving f s) (err e) b h = refl
complete-Owns (sending f s) (ok n) b h = refl
complete-Owns (sending f s) (err e) b h = refl
complete-Owns (polling m f v) (ok n) b h = refl
complete-Owns (polling m f v) (err e) b h = refl

abbrev pub Connects : Request → Type 0
Connects (connecting f a) = Unit {0}
Connects r = ⊥

cleanup-Owns :
    (r : Request) (x : IoResult) (b : Option ℕ)
    → Proper r (record { result = x; bid = b })
    → ¬ Connects r
    → cleanup r (record { result = x; bid = b }) ≡ done (resources_of (configure r) x b)
unfolding configure cleanup
cleanup-Owns (open_socket d t p) (ok n) b h k = refl
cleanup-Owns (open_socket d t p) (err e) b h k = refl
cleanup-Owns (send_to f s a) (ok n) b h k = refl
cleanup-Owns (send_to f s a) (err e) b h k = refl
cleanup-Owns (recv_from f s a) (ok n) b h k = refl
cleanup-Owns (recv_from f s a) (err e) b h k = refl
cleanup-Owns (recv_from_ring f g r a) (ok n) none h k = absurd h.0
cleanup-Owns (recv_from_ring f g r a) (ok n) (some b) h k = rw (get_buf_lem n b r h.0) refl
cleanup-Owns (recv_from_ring f g r a) (err e) b h k = refl
cleanup-Owns (accepting true f a) (ok n) b h k = refl
cleanup-Owns (accepting true f a) (err e) b h k = refl
cleanup-Owns (accepting false f a) (ok n) b h k = refl
cleanup-Owns (accepting false f a) (err e) b h k = refl
cleanup-Owns (connecting f a) x b h k = absurd (k tt)
cleanup-Owns (shutting f w) (ok n) b h k = refl
cleanup-Owns (shutting f w) (err e) b h k = refl
cleanup-Owns (receiving f s) (ok n) b h k = refl
cleanup-Owns (receiving f s) (err e) b h k = refl
cleanup-Owns (sending f s) (ok n) b h k = refl
cleanup-Owns (sending f s) (err e) b h k = refl
cleanup-Owns (polling m f v) (ok n) b h k = refl
cleanup-Owns (polling m f v) (err e) b h k = refl

-- What the kernel makes when it completes an operation of a socket other than `connect` (a
-- descriptor, or the bytes in a selected buffer of a ring) is handed over in the output if the
-- operation is completed, and given back if it is cleaned up, and nothing else is; the completion
-- must be proper: a receive into a ring selects a buffer and fits into it, and a peer has an
-- address of IPv4 or IPv6.
pub completion-Owned :
    (r : Request) (c : Completion)
    → Proper r c
    → ¬ Connects r
    → Ensures (λ o. owns o ≡ resources (configure r) c) (complete r c)
      × (cleanup r c ≡ done (resources (configure r) c))
completion-Owned r c h k = (complete-Owns r c.result c.bid h, cleanup-Owns r c.result c.bid h k)
