-- ===== src/Uring/Buf/Slices.antt =====
-- Which bytes of a buffer the wrappers of norn-uring/src/buf.rs show.
use faser.Prelude.{ℕ, ◌+◌, ◌≤◌, ◌≡◌, Ensures, arith}
use faser.Uring.Buf.{StableBuf, new, consume, stable_ptr, bytes_init}

-- The `len` bytes at `ptr` are the end of the buffer, without its first `n` bytes.
pub record Rest (b : StableBuf) (n ptr len : ℕ) : Type 0 where
  pub begins : ptr ≡ b.stable_ptr + n
  pub ends : ptr + len ≡ b.stable_ptr + b.bytes_init

-- A cursor from which first `n` and then `m` bytes were consumed, together no more than the buffer
-- has, shows exactly the initialized bytes of the buffer after its first `n + m`: it begins there,
-- ends where the buffer ends, and computing its length does not panic.
pub consume-Rest :
    (b : StableBuf) (n m : ℕ)
    → n + m ≤ b.bytes_init
    → Ensures
        (Rest b (n + m) (stable_ptr (consume m (consume n (new b)))))
        (bytes_init (consume m (consume n (new b))))
unfolding new consume stable_ptr bytes_init
consume-Rest b n m h = ground arith
