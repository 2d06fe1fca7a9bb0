-- ===== src/Timer/Sleep.antt =====
-- norn-timer/src/entry.rs: the states of a `Sleep` and its entry. What `TimerList::add` does with the
-- entry is an argument of `poll`; that `TimerList::remove` takes it out of the wheel changes nothing
-- in the entry. `woken` are the wakers that were woken, the latest first.
pub mod Answering
use faser.Prelude.{
  ℕ, Bool, true, false, not, Option, none, some, List, [], ◌∷◌, Outcome, done, panic, ◌>>=◌, ◌>>◌,
  assert,
}
use faser.Timer.Wheels.{Completion, ok}

pub data SleepState : Type 0 where
  unregistered registered fired : SleepState

pub record Sleep : Type 0 where
  pub state : SleepState
  pub waker : Option ℕ
  pub complete : Completion
  pub deadline : ℕ
  pub woken : List ℕ

-- The timer fires the entry at once, or registers it for a tick.
pub data Added : Type 0 where
  fires : Completion → Added
  registers : ℕ → Added

unfoldable pub new : Sleep
new = record { state = unregistered; waker = none; complete = ok; deadline = 0; woken = [] }

abbrev pub is_registered : SleepState → Bool
is_registered registered = true
is_registered s = false

abbrev wake : Option ℕ → List ℕ → List ℕ
wake none ws = ws
wake (some k) ws = k ∷ ws

-- `Entry::fire`.
unfoldable pub fire : Completion → Sleep → Sleep
fire c s = record s { state = fired; complete = c; waker = none; woken = wake s.waker s.woken }

-- `Entry::set_registered`.
unfoldable pub set_registered : ℕ → Sleep → Outcome Sleep
set_registered tick s = do
  assert (not (is_registered s.state))
  done (record s { state = registered; deadline = tick })

unfoldable pub add : Added → Sleep → Outcome Sleep
add (fires c) s = done (fire c s)
add (registers tick) s = set_registered tick s

-- The branches of the loop in `poll` that return; `none` is `Poll::Pending`.
unfoldable pub settled : SleepState → ℕ → Sleep → Outcome (Option Completion × Sleep)
settled registered k s = done (none, record s { waker = some k })
settled fired k s = done (some s.complete, record s { complete = ok })
settled unregistered k s = panic

-- The loop goes round once more after an entry was added.
unfoldable pub poll_in : SleepState → Added → ℕ → Sleep → Outcome (Option Completion × Sleep)
poll_in unregistered a k s = add a s >>= λ s'. settled s'.state k s'
poll_in state a k s = settled state k s

unfoldable pub poll : Added → ℕ → Sleep → Outcome (Option Completion × Sleep)
poll a k s = poll_in s.state a k s

-- `Sleep::reset`, with the assertion that follows the removal.
unfoldable pub reset : Sleep → Outcome Sleep
reset s = do
  assert (not (is_registered s.state))
  done (record s { complete = ok; deadline = 0; waker = none })
