-- ===== src/Uring/Unparker/Waking.antt =====
-- No wakeup of norn-uring/src/driver/unpark.rs is lost while the reactor sleeps.
use faser.Prelude.{ℕ, ◌+◌, ◌≡◌, ◌≤◌, ◌<◌, ◌⊎◌, refl, true, false, count_if, arith}
use faser.Uring.Unparker.{
  System, start, Action, prepares, returns, drains, requests, writes, completes, perform, prepare,
  park, reset, request, write, new,
}

-- When each of them acts. The queue has room for the read; a sleeping reactor does nothing else.
abbrev pub Permitted : Action → System → Type 0
Permitted (prepares room) s = (s.asleep ≡ false) × (room ≡ true)
Permitted returns s = Unit {0}
Permitted drains s = (s.asleep ≡ false) × (0 < s.rung)
Permitted requests s = Unit {0}
Permitted writes s = 0 < s.owed
Permitted completes s = (0 < s.reads) × (0 < s.unparker.counter)

pub data Reach (s : System) : System → Type 0 where
  here : Reach s s
  later : {t : System} → Reach s t → (a : Action) → Permitted a t → Reach s (perform a t)

-- The writes that the reactor has not seen.
abbrev pub signals : System → ℕ
signals s = s.unparker.counter + s.owed + s.rung

pub record Inv (s : System) : Type 0 where
  pub watched : s.reads + s.rung ≡ count_if s.unparker.flag.is_parked
  pub once : signals s ≤ count_if s.unparker.flag.woken
  pub parked : signals s ≤ count_if s.unparker.flag.is_parked
  pub sleeping : s.asleep ≡ true → s.unparker.flag.is_parked ≡ true
  pub heard : s.asleep ≡ true → s.unparker.flag.woken ≡ true → signals s ≡ 1

start-Inv : Inv start
unfolding start new
start-Inv = record {
  watched = refl;
  once = omega arith;
  parked = omega arith;
  sleeping = λ e. ground arith;
  heard = λ e. ground arith;
}

does-Inv : (a : Action) (s : System) → Inv s → Permitted a s → Inv (perform a s)
unfolding perform prepare park reset request write
does-Inv (prepares room) s v p = ground arith
does-Inv returns s v p = ground arith
does-Inv drains s v p = ground arith
does-Inv requests s v p = ground arith
does-Inv writes s v p = ground arith
does-Inv completes s v p = ground arith

Reach-Inv : {s t : System} → Inv s → Reach s t → Inv t
Reach-Inv v here = v
Reach-Inv v (later {t} r a p) = does-Inv a t (Reach-Inv v r) p

-- The reactor is about to be woken: the read is complete, or it is queued and the write that
-- completes it was made or is owed by one thread.
abbrev pub Roused : System → Type 0
Roused s = (s.rung ≡ 1) ⊎ ((s.reads ≡ 1) × ((s.unparker.counter ≡ 1) ⊎ (s.owed ≡ 1)))

signals_le : (s : System) → Inv s → signals s ≤ 1
signals_le s v = ground arith

rouse : (s : System) → Inv s → s.asleep ≡ true → s.unparker.flag.woken ≡ true → Roused s
rouse s v a w = ground arith

-- However the reactor, its kernel and remote threads are interleaved (each thread may be stopped
-- between the two halves of `wake_inner`), provided that the submission queue takes the read of
-- the eventfd when the reactor prepares to park: if the reactor sleeps and a wakeup has been
-- requested, then the read is complete, or one read is queued and the write that completes it was
-- made or is owed by one thread; no more than one write is made or owed for one read.
pub asleep-Roused :
    {s : System}
    → Reach start s
    → s.asleep ≡ true
    → s.unparker.flag.woken ≡ true
    → Roused s × (signals s ≤ 1)
asleep-Roused {s} r a w = let v = Reach-Inv start-Inv r in (rouse s v a w, signals_le s v)

-- A remote thread asked for a wakeup of which the eventfd will not tell.
pub record Unheard (s : System) : Type 0 where
  pub woken : s.unparker.flag.woken ≡ true
  pub silent : signals s ≡ 0
  pub awake : s.asleep ≡ false
