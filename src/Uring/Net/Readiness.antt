-- ===== src/Uring/Net/Readiness.antt =====
-- `Event` of norn-uring/src/net/socket.rs, and `ReadyStream` of norn-uring/src/net/tcp.rs: a socket on
-- which a call is tried when a poll has told that it is ready. What the poll of the armed operation
-- answers, and what the calls return, are lists of inputs.
pub mod Settling
mod Tests
use Prim.Native.Nat.{bit_and, bit_or}
use faser.Prelude.{
  ℕ, ◌%◌, ◌^◌, Bool, true, false, not, ◌||◌, ◌&&◌, ◌==◌, List, [], ◌∷◌, Outcome, done, no_fuel,
  ◌>>=◌,
}
use faser.Uring.Operation.{IoResult, ok, err}

abbrev pub pollin : ℕ
pollin = 1

abbrev pub pollpri : ℕ
pollpri = 2

abbrev pub pollout : ℕ
pollout = 4

abbrev pub pollerr : ℕ
pollerr = 8

abbrev pub pollhup : ℕ
pollhup = 16

abbrev pub pollnval : ℕ
pollnval = 32

abbrev pub pollrdhup : ℕ
pollrdhup = 8192

abbrev pub read_flags : ℕ
read_flags = bit_or pollin pollpri

abbrev pub common_flags : ℕ
common_flags = bit_or (bit_or pollerr pollhup) pollnval

abbrev pub write_flags : ℕ
write_flags = pollout

-- `READ_FLAGS` and `WRITE_FLAGS`.
unfoldable pub all_read_flags : ℕ
all_read_flags = bit_or read_flags common_flags

unfoldable pub all_write_flags : ℕ
all_write_flags = bit_or write_flags common_flags

pub record Event : Type 0 where
  pub events : ℕ

abbrev has : ℕ → Event → Bool
has flag e = not (bit_and e.events flag == 0)

unfoldable pub is_readable : Event → Bool
is_readable e = has pollin e || has pollpri e

unfoldable pub is_writeable : Event → Bool
is_writeable e = has pollout e

unfoldable pub is_error : Event → Bool
is_error e = has pollerr e

unfoldable pub is_read_closed : Event → Bool
is_read_closed e = has pollhup e || has pollrdhup e

unfoldable pub is_write_closed : Event → Bool
is_write_closed e = has pollhup e || (has pollout e && has pollerr e || e.events == pollerr)

unfoldable pub is_priority : Event → Bool
is_priority e = has pollpri e

pub record ReadyStream : Type 0 where
  pub armed : Bool
  pub notified : Bool

unfoldable pub new : ReadyStream
new = record { armed = false; notified = true }

-- What `poll_next` of the armed operation answers.
pub data Next : Type 0 where
  item : IoResult → Next
  ended pending : Next

pub data Ready (A : Type 0) : Type 0 where
  ready : A → Ready A
  waiting : Ready A

-- The loop of `poll_ready` while the stream is not notified. An operation that has ended is armed
-- again.
unfoldable pub await_ready :
    List Next → ReadyStream → Outcome (Ready IoResult × List Next × ReadyStream)
await_ready [] s = no_fuel
await_ready (pending ∷ ns) s = done (waiting, ns, record s { armed = true })
await_ready (item (ok e) ∷ ns) s = done (ready (ok 0), ns, record { armed = true; notified = true })
await_ready (item (err e) ∷ ns) s = done (ready (err e), ns, record s { armed = true })
await_ready (ended ∷ ns) s = await_ready ns (record s { armed = false })

unfoldable pub poll_ready :
    List Next → ReadyStream → Outcome (Ready IoResult × List Next × ReadyStream)
poll_ready ns s = elim s.notified [ true ↦ done (ready (ok 0), ns, s) | false ↦ await_ready ns s ]

-- What a call of the socket returns.
pub data Tried : Type 0 where
  success : ℕ → Tried
  would_block : Tried
  failure : ℕ → Tried

abbrev pub when_ready :
    Ready IoResult × List Next × ReadyStream
    → (List Next → ReadyStream → Outcome (Ready IoResult × List Next × ReadyStream))
    → Outcome (Ready IoResult × List Next × ReadyStream)
when_ready (waiting, ns, s) f = done (waiting, ns, s)
when_ready (ready (err e), ns, s) f = done (ready (err e), ns, s)
when_ready (ready (ok n), ns, s) f = f ns s

-- `poll_op`.
unfoldable pub poll_op :
    List Tried → List Next → ReadyStream → Outcome (Ready IoResult × List Next × ReadyStream)
poll_op [] ns s = no_fuel
poll_op (success n ∷ ts) ns s = do
  r ← poll_ready ns s
  when_ready r (λ ns' s'. done (ready (ok n), ns', s'))
poll_op (failure e ∷ ts) ns s = do
  r ← poll_ready ns s
  when_ready r (λ ns' s'. done (ready (err e), ns', s'))
poll_op (would_block ∷ ts) ns s = do
  r ← poll_ready ns s
  when_ready r (λ ns' s'. poll_ready ns' (record s' { notified = false }) >>= λ q.
      when_ready q (λ ns'' s''. poll_op ts ns'' s''))
