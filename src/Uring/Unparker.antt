-- ===== src/Uring/Unparker.antt =====
-- norn-uring/src/driver/unpark.rs: the flag and the eventfd by which other threads wake the reactor.
-- A `System` is the reactor, its kernel and the remote threads: `reads` are the reads of the eventfd
-- that were queued and are not complete, `owed` the remote threads between the two halves of
-- `wake_inner`, `rung` the completions of such reads that the reactor has not drained, and `asleep`
-- says that the reactor went to wait for a completion.
pub mod Waking
use faser.Prelude.{
  ℕ, zero, ◌+◌, ◌-◌, ◌≡◌, ◌<◌, Bool, true, false, not, ◌&&◌, ltb, if◌then◌else◌, Option, none, some,
  Outcome, done, panic, assert, ◌>>◌,
}

-- `UnparkerState`, the bits of the flag: REACTOR_PARK_BIT and REMOTE_THREAD_BIT.
pub record UnparkerState : Type 0 where
  pub is_parked : Bool
  pub woken : Bool

-- `Inner`: the flag, and what the eventfd has counted.
pub record Unparker : Type 0 where
  pub flag : UnparkerState
  pub counter : ℕ

unfoldable pub new : Unparker
new = record { flag = record { is_parked = false; woken = false }; counter = 0 }

-- `fetch_or(REACTOR_PARK_BIT)`, with the bits as they were.
unfoldable pub park : Unparker → UnparkerState × Unparker
park u = (u.flag, record u { flag = record (u.flag) { is_parked = true } })

unfoldable pub reset : Unparker → Unparker
reset u = record u { flag = record { is_parked = false; woken = false } }

-- The first half of `wake_inner`: `fetch_or(REMOTE_THREAD_BIT)`, and if a write is to follow.
unfoldable pub request : Unparker → Bool × Unparker
request u =
    (not u.flag.woken && u.flag.is_parked, record u { flag = record (u.flag) { woken = true } })

-- The second half: one is added to the eventfd.
unfoldable pub write : Unparker → Unparker
write u = record u { counter = u.counter + 1 }

unfoldable pub wake_inner : Unparker → Unparker
wake_inner u = let (writes, u') = request u in if writes then write u' else u'

pub record System : Type 0 where
  pub unparker : Unparker
  pub reads : ℕ
  pub owed : ℕ
  pub rung : ℕ
  pub asleep : Bool

unfoldable pub start : System
start = record { unparker = new; reads = 0; owed = 0; rung = 0; asleep = false }

-- `Driver::prepare_park` of driver/mod.rs while the driver runs, as far as it is about the unparker: if
-- the reactor may sleep, and whether it queues a read of the eventfd first. `room` says that the submission queue takes the read.
unfoldable pub prepare : Bool → Unparker → (Bool × Bool) × Unparker
prepare room u =
    let (old, u') = park u in
    (
      (
        if old.is_parked then not old.woken else if room then not old.woken else false,
        if old.is_parked then false else room,
      ),
      u',
    )

-- The reactor prepares to park and sleeps if it may, returns from the wait, or drains a completion
-- of a read; a remote thread does one half of `wake_inner`; the kernel completes a read, which takes
-- what the eventfd has.
pub data Action : Type 0 where
  prepares : Bool → Action
  returns drains requests writes completes : Action

unfoldable pub perform : Action → System → System
perform (prepares room) s =
    let ((sleeps, pushed), u) = prepare room s.unparker in
    record s { unparker = u; reads = if pushed then s.reads + 1 else s.reads; asleep = sleeps }
perform returns s = record s { asleep = false }
perform drains s = record s { rung = s.rung - 1; unparker = reset s.unparker }
perform requests s =
    let (more, u) = request s.unparker in
    record s { unparker = u; owed = if more then s.owed + 1 else s.owed }
perform writes s = record s { unparker = write s.unparker; owed = s.owed - 1 }
perform completes s = record s {
  unparker = record (s.unparker) { counter = 0 };
  reads = s.reads - 1;
  rung = s.rung + 1;
}
