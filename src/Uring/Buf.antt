-- ===== src/Uring/Buf.antt =====
-- norn-uring/src/buf.rs: the buffers for the kernel, `BufCursor` and `BufLimit`. A stable buffer is
-- the address of its first byte and the number of its initialized bytes; a mutable one has a
-- capacity too.
pub mod Slices
pub mod Filling
use faser.Prelude.{ℕ, ◌+◌, ◌-◌, leb, ltb, if◌then◌else◌, min, Outcome, done, ◌>>=◌, ◌>>◌, assert}

pub record StableBuf : Type 0 where
  pub stable_ptr : ℕ
  pub bytes_init : ℕ

-- `Bytes`, and the static slices and strings.
abbrev pub shared : ℕ → ℕ → StableBuf
shared ptr len = record { stable_ptr = ptr; bytes_init = len }

pub record BufCursor : Type 0 where
  pub buf : StableBuf
  pub pos : ℕ

unfoldable pub new : StableBuf → BufCursor
new buf = record { buf = buf; pos = 0 }

unfoldable pub consume : ℕ → BufCursor → BufCursor
consume n c = record c { pos = c.pos + n }

unfoldable pub stable_ptr : BufCursor → ℕ
stable_ptr c = c.buf.stable_ptr + min c.buf.bytes_init c.pos

-- A position past the end panics, as in a debug build.
unfoldable pub bytes_init : BufCursor → Outcome ℕ
bytes_init c = do assert (leb c.pos c.buf.bytes_init); done (c.buf.bytes_init - c.pos)

-- `BufLimit` as a stable buffer.
unfoldable pub limit : ℕ → StableBuf → StableBuf
limit n b = record { stable_ptr = b.stable_ptr; bytes_init = min b.bytes_init n }

-- The types that are written into: `Vec<u8>`, `Box<[u8]>` and `BytesMut`.
pub data Container : Type 0 where
  vec boxed bytes_mut : Container

pub record StableBufMut : Type 0 where
  pub container : Container
  pub ptr : ℕ
  pub len : ℕ
  pub capacity : ℕ

-- `StableBuf` of them: `stable_ptr` and `bytes_init`.
unfoldable pub readable : StableBufMut → StableBuf
readable b = record { stable_ptr = b.ptr; bytes_init = b.len }

abbrev remaining : Container → StableBufMut → ℕ
remaining vec b = b.capacity
remaining boxed b = b.len
remaining bytes_mut b = b.capacity

unfoldable pub bytes_remaining : StableBufMut → ℕ
bytes_remaining b = remaining b.container b

abbrev set : Container → ℕ → StableBufMut → StableBufMut
set vec n b = record b { len = n }
set boxed n b = b
set bytes_mut n b = if ltb b.len n then record b { len = n } else b

unfoldable pub set_init : ℕ → StableBufMut → StableBufMut
set_init n b = set b.container n b
