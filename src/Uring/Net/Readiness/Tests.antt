-- ===== src/Uring/Net/Readiness/Tests.antt =====
-- Runs of the readiness of sockets.
use faser.Prelude.{◌≡◌, refl, true, false, [], ◌∷◌, done}
use faser.Uring.Net.Readiness.{
  is_write_closed, new, poll_op, poll_ready, await_ready, ended, pending, waiting, would_block,
}

-- The peer hung up.
hung_up : is_write_closed (record { events = 16 }) ≡ true
unfolding is_write_closed
hung_up = refl

-- The call would block, the operation has ended, and the one armed in its place is pending.
blocked :
    poll_op (would_block ∷ []) (ended ∷ pending ∷ []) new
    ≡ done (waiting, [], record { armed = true; notified = false })
unfolding poll_op poll_ready await_ready new
blocked = refl
