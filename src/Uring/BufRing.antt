-- ===== src/Uring/BufRing.antt =====
-- norn-uring/src/bufring.rs: the ring of buffers that the kernel reads. An entry of the ring keeps
-- the number of its buffer; its address and length are fixed by that. What the kernel answers to the
-- registration and to its end are arguments, `none` for success.
pub mod Mask
pub mod Window
pub mod Powers
pub mod Build
pub mod Refusing
pub mod Recycling
use faser.Prelude.{
  ℕ, zero, suc, ◌+◌, ◌-◌, ◌*◌, ◌^◌, ◌%◌, Bool, true, false, not, ◌||◌, ltb, leb, ◌==◌,
  if◌then◌else◌, Option, none, some, Outcome, done, panic, ◌>>=◌, ◌>>◌, assert,
}
use faser.Store.{update}
use Prim.Native.Nat.{bit_and, max}

pub record Builder : Type 0 where
  pub bgid : ℕ
  pub ring_entries : ℕ
  pub buf_cnt : ℕ
  pub buf_len : ℕ

-- `Builder::new`: `buf_cnt` is taken from `ring_entries` if it is left at 0.
abbrev pub builder : ℕ → Builder
builder bgid = record { bgid = bgid; ring_entries = 128; buf_cnt = 0; buf_len = 4096 }

pub record InnerBufRing : Type 0 where
  pub bgid : ℕ
  pub ring_entries_mask : ℕ
  pub buf_cnt : ℕ
  pub buf_len : ℕ
  pub ring : ℕ → ℕ
  pub local_tail : ℕ  -- u16
  pub shared_tail : ℕ

-- `exceeded` and `invalid_input` are the code's own errors, `refused` that of the registration, and
-- `withdrawn` the same once the ring was dropped, with the group that its drop has unregistered.
pub data BuildError : Type 0 where
  exceeded invalid_input : BuildError
  refused : ℕ → BuildError
  withdrawn : ℕ → ℕ → BuildError

pub data Result : Type 0 where
  ok : InnerBufRing → Result
  err : BuildError → Result

-- `u16::next_power_of_two`, by doubling.
unfoldable pub double_until : ℕ → ℕ → ℕ → ℕ
double_until zero p n = p
double_until (suc fuel) p n = let rest = double_until fuel (p * 2) n in if leb n p then p else rest

unfoldable pub next_power_of_two : ℕ → ℕ
next_power_of_two n = double_until 16 1 n

-- `InnerBufRing::new`. The memory that `mmap` returns is filled with zeros.
unfoldable pub new : ℕ → ℕ → ℕ → ℕ → Result
new bgid ring_entries buf_cnt buf_len =
    if (buf_cnt == 0)
      || ltb ring_entries buf_cnt
      || (buf_len == 0)
      || not (bit_and ring_entries (ring_entries - 1) == 0)
    then err invalid_input
    else ok (record {
      bgid = bgid;
      ring_entries_mask = ring_entries - 1;
      buf_cnt = buf_cnt;
      buf_len = buf_len;
      ring = λ i. 0;
      local_tail = 0;
      shared_tail = 0;
    })

unfoldable pub buf_ring_push : ℕ → InnerBufRing → Outcome InnerBufRing
buf_ring_push bid r = do
  assert (ltb bid r.buf_cnt)
  done (record r {
    ring = update r.ring (bit_and r.local_tail r.ring_entries_mask) bid;
    local_tail = (r.local_tail + 1) % 2 ^ 16;
  })

unfoldable pub buf_ring_sync : InnerBufRing → InnerBufRing
buf_ring_sync r = record r { shared_tail = r.local_tail }

-- The buffers that are left, from `bid` on, go into the ring.
unfoldable pub push_from : ℕ → ℕ → InnerBufRing → Outcome InnerBufRing
push_from zero bid r = done r
push_from (suc n) bid r = buf_ring_push bid r >>= push_from n (suc bid)

unfoldable pub register : Option ℕ → InnerBufRing → Outcome Result
register (some e) r = done (err (refused e))
register none r = push_from r.buf_cnt 0 r >>= λ r'. done (ok (buf_ring_sync r'))

-- `dropping_bid`, when a `BufRingBuf` is dropped.
unfoldable pub dropping_bid : ℕ → InnerBufRing → Outcome InnerBufRing
dropping_bid bid r = buf_ring_push bid r >>= λ r'. done (buf_ring_sync r')

-- The counts that `build` goes on with.
unfoldable pub balanced : Builder → Builder
balanced b =
    let most = max b.ring_entries b.buf_cnt in
    if (b.buf_cnt == 0) || ltb b.ring_entries b.buf_cnt
    then record b { buf_cnt = most; ring_entries = most }
    else b

-- `InnerBufRing::drop`, with its `unwrap`: the group that it unregisters.
unfoldable pub drop : Option ℕ → InnerBufRing → Outcome ℕ
drop none r = done r.bgid
drop (some e) r = panic

-- The ring is dropped if it is not registered.
abbrev pub settled : Option ℕ → InnerBufRing → Result → Outcome Result
settled unregisters r (err (refused e)) = drop unregisters r >>= λ g. done (err (withdrawn e g))
settled unregisters r x = done x

abbrev registered : Option ℕ → Option ℕ → Result → Outcome Result
registered answer unregisters (ok r) = register answer r >>= settled unregisters r
registered answer unregisters (err e) = done (err e)

unfoldable pub build : Option ℕ → Option ℕ → Builder → Outcome Result
build answer unregisters builder =
    let b = balanced builder in
    if ltb (2 ^ 15) b.ring_entries
    then done (err exceeded)
    else registered answer unregisters
        (new b.bgid (next_power_of_two b.ring_entries) b.buf_cnt b.buf_len)

-- `BufRingBuf`: a buffer that the application has, with the bytes in it.
pub record BufRingBuf : Type 0 where
  pub bid : ℕ
  pub len : ℕ

-- `BufRingBuf::new`.
unfoldable pub ring_buf : ℕ → ℕ → InnerBufRing → Outcome BufRingBuf
ring_buf bid len r = do assert (leb len r.buf_len); done (record { bid = bid; len = len })

-- `InnerBufRing::get_buf`, on the buffer that the flags of the completion select.
unfoldable pub get_buf : ℕ → Option ℕ → InnerBufRing → Outcome BufRingBuf
get_buf res none r = panic
get_buf res (some bid) r = do assert (leb res r.buf_len); ring_buf bid res r
