-- ===== src/Uring/Buf/Filling.antt =====
-- A buffer of norn-uring/src/buf.rs after the kernel wrote into it.
use faser.Prelude.{ℕ, ◌≡◌, ◌≤◌, refl, arith}
use faser.Uring.Buf.{
  StableBufMut, Container, vec, boxed, bytes_mut, bytes_remaining, set_init, readable,
}

-- The bytes that may be read lie within the memory of the buffer.
abbrev pub Fits : StableBufMut → Type 0
Fits b = b.len ≤ b.capacity

-- What the buffer shows after `n` bytes were written into it.
pub record Filled (n : ℕ) (b b' : StableBufMut) : Type 0 where
  pub fits : Fits b'
  pub shown : n ≤ (readable b').bytes_init
  pub place : (readable b').stable_ptr ≡ b.ptr
  pub room : bytes_remaining b' ≡ bytes_remaining b

set-Filled :
    (c : Container) (n p l k : ℕ)
    → l ≤ k
    → n ≤ bytes_remaining (record { container = c; ptr = p; len = l; capacity = k })
    → Filled n
        (record { container = c; ptr = p; len = l; capacity = k })
        (set_init n (record { container = c; ptr = p; len = l; capacity = k }))
unfolding bytes_remaining set_init readable
set-Filled vec n p l k f h = record { fits = h; shown = omega arith; place = refl; room = refl }
set-Filled boxed n p l k f h = record { fits = f; shown = h; place = refl; room = refl }
set-Filled bytes_mut n p l k f h = record {
  fits = ground arith;
  shown = ground arith;
  place = ground arith;
  room = ground arith;
}

-- x
pub set_init-Filled :
    (n : ℕ) (b : StableBufMut) → Fits b → n ≤ bytes_remaining b → Filled n b (set_init n b)
set_init-Filled n b f h = set-Filled b.container n b.ptr b.len b.capacity f h
