-- ===== src/Uring/Notify.antt =====
-- norn-uring/src/util/notify.rs: a queue of waiters. A `Notified` with its entry is a number, the
-- `cordyceps::List` the list of those that are linked, its front first. Wakers are numbers; `woken`
-- are those that were woken, the latest first.
pub mod Queue
pub mod Firing
pub mod Safety
pub mod Waiting
pub mod Counting
use faser.Prelude.{
  ℕ, zero, suc, ◌+◌, ◌-◌, Bool, true, false, leb, ltb, ◌==◌, if◌then◌else◌, Option, none, some,
  List, [], ◌∷◌, ◌++◌, Outcome, done, panic, ◌>>=◌, ◌>>◌, assert,
}
use faser.Store.{update}

pub data EntryState : Type 0 where
  unregistered linked fired completed : EntryState

pub record Entry : Type 0 where
  pub state : EntryState
  pub waker : Option ℕ

pub record Notify : Type 0 where
  pub waiters : List ℕ
  pub count : ℕ
  pub entries : ℕ → Entry
  pub woken : List ℕ

-- The queue with no waiters; every entry stands as `Entry::new` makes it.
unfoldable pub default : Notify
default = record {
  waiters = [];
  count = 0;
  entries = λ i. record { state = unregistered; waker = none };
  woken = [];
}

-- `Notify::wait`: a fresh entry.
unfoldable pub wait : ℕ → Notify → Notify
wait i n = record n { entries = update n.entries i (record { state = unregistered; waker = none }) }

abbrev pub wake : Option ℕ → List ℕ → List ℕ
wake none ws = ws
wake (some k) ws = k ∷ ws

-- `Entry::fire`.
unfoldable pub fire : ℕ → Notify → Notify
fire i n = record n {
  entries = update n.entries i (record { state = fired; waker = none });
  woken = wake ((n.entries i).waker) n.woken;
}

-- The loop of `notify`, on the rounds that are left and the number removed.
unfoldable pub fire_loop : ℕ → ℕ → List ℕ → Notify → ℕ × Notify
fire_loop zero removed ws n = (removed, record n { waiters = ws })
fire_loop (suc k) removed [] n = (removed, record n { waiters = [] })
fire_loop (suc k) removed (w ∷ ws) n = fire_loop k (removed + 1) ws (fire w n)

-- Subtracting more than the count has would panic.
unfoldable pub notify : ℕ → Notify → Outcome (ℕ × Notify)
notify k n =
    let (removed, n') = fire_loop k 0 n.waiters n in
    assert (leb removed n'.count) >> done (removed, record n' { count = n'.count - removed })

-- `List::remove`, by the pointer.
unfoldable pub unlink : ℕ → List ℕ → List ℕ
unlink i [] = []
unlink i (x ∷ xs) = if x == i then xs else x ∷ unlink i xs

unfoldable pub cancel : ℕ → Notify → Outcome Notify
cancel i n = do
  assert (ltb 0 n.count)
  done (record n { count = n.count - 1; waiters = unlink i n.waiters })

abbrev drop_in : EntryState → ℕ → Notify → Outcome Notify
drop_in linked i n = cancel i n
drop_in fired i n = notify 1 n >>= λ r. done r.1
drop_in s i n = done n

-- `Notified::drop`. The entry is gone then; its number is free for another `wait`.
unfoldable pub drop : ℕ → Notify → Outcome Notify
drop i n = do
  n' ← drop_in ((n.entries i).state) i n
  done (record n' { entries = update n'.entries i (record { state = unregistered; waker = none }) })

abbrev poll_in : EntryState → ℕ → ℕ → Notify → Outcome (Bool × Notify)
poll_in unregistered i k n = done (
  false,
  record n {
    entries = update n.entries i (record { state = linked; waker = some k });
    waiters = n.waiters ++ (i ∷ []);
    count = n.count + 1;
  },
)
poll_in linked i k n =
    done
      (false, record n { entries = update n.entries i (record { state = linked; waker = some k }) })
poll_in fired i k n = done (
  true,
  record n {
    entries = update n.entries i (record { state = completed; waker = (n.entries i).waker });
  },
)
poll_in completed i k n = panic

-- `Notified::poll`; the flag is `Poll::is_ready`.
unfoldable pub poll : ℕ → ℕ → Notify → Outcome (Bool × Notify)
poll i k n = poll_in ((n.entries i).state) i k n

-- What the tasks that share a `Notify` may do with it.
pub data Action : Type 0 where
  waits drops notifies : ℕ → Action
  polls : ℕ → ℕ → Action

unfoldable pub perform : Action → Notify → Outcome Notify
perform (waits i) n = done (wait i n)
perform (drops i) n = drop i n
perform (notifies k) n = notify k n >>= λ r. done r.1
perform (polls i k) n = poll i k n >>= λ r. done r.1
