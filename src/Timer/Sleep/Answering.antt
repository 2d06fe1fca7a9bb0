-- ===== src/Timer/Sleep/Answering.antt =====
-- What a `Sleep` of norn-timer/src/entry.rs answers when it is polled.
use faser.Prelude.{ℕ, ◌≡◌, refl, Option, none, some, ◌∷◌, Ensures, arith}
use faser.Timer.Wheels.{Completion}
use faser.Timer.Sleep.{
  SleepState, Sleep, Added, fires, registers, registered, unregistered, fired, poll, poll_in,
  settled, add, set_registered, fire,
}

-- What a poll of a `Sleep` answers, by its state and by what the timer does with a new entry.
abbrev pub Answers : SleepState → Added → ℕ → Sleep → Option Completion × Sleep → Type 0
Answers unregistered (fires c) k s x = (x.0 ≡ some c) × (x.1.state ≡ fired)
Answers unregistered (registers tick) k s x =
    (x.0 ≡ none) × (x.1.state ≡ registered) × (x.1.deadline ≡ tick) × (x.1.waker ≡ some k)
Answers registered a k s x =
    (x.0 ≡ none) × (x.1.state ≡ registered) × (x.1.deadline ≡ s.deadline) × (x.1.waker ≡ some k)
Answers fired a k s x = (x.0 ≡ some s.complete) × (x.1.state ≡ fired)

poll_by :
    (st : SleepState) (a : Added) (k : ℕ) (s : Sleep)
    → s.state ≡ st
    → Ensures (Answers st a k s) (poll_in st a k s)
unfolding poll_in settled add set_registered fire
poll_by unregistered (fires c) k s e = ground arith
poll_by unregistered (registers tick) k s e = ground arith
poll_by registered a k s e = ground arith
poll_by fired a k s e = ground arith

-- A poll of a `Sleep` registers it if it is new and is then pending with its waker left (or ready
-- with the result, if the timer fires it at once), is pending with the new waker and the same
-- deadline while it is registered, and is ready with the stored result once it has fired; it never
-- panics.
pub poll-Answers : (a : Added) (k : ℕ) (s : Sleep) → Ensures (Answers s.state a k s) (poll a k s)
unfolding poll
poll-Answers a k s = poll_by s.state a k s refl

-- A sleep that fires wakes `k` and is then ready with `c`.
abbrev pub Rings : ℕ → Completion → Sleep → Type 0
Rings k c s =
    ((fire c s).woken ≡ k ∷ s.woken) × Ensures (λ y. y.0 ≡ some c) (poll (registers 0) k (fire c s))

-- After a poll of a registered `Sleep` with the waker `k`, firing it wakes `k`, and the next poll
-- is ready with the result that it was fired with.
pub poll-Rings :
    (a : Added) (k : ℕ) (c : Completion) (s : Sleep)
    → s.state ≡ registered
    → Ensures (λ x. Rings k c x.1) (poll a k s)
unfolding poll poll_in settled fire
poll-Rings a k c s e = ground arith
