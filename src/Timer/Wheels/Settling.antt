-- ===== src/Timer/Wheels/Settling.antt =====
-- What `Wheels::advance` (norn-timer/src/wheels.rs) does with the entries of a slot that is due: it
-- fires those whose deadline has come, and puts the others by.
use faser.Prelude.{
  ℕ, suc, ◌+◌, ◌/◌, ◌^◌, ◌≤◌, ◌<◌, ◌≡◌, ◌≢◌, refl, ap, Bool, false, List, [], ◌∷◌, ◌++◌, done,
  arith, count_if, All, ltb, ◌==◌, inl, inr, Bool-cases,
}
use faser.Timer.Level.{Entry, Expiration}
use faser.Timer.Wheels.{Wheels, Firing, Sweep, ok, settle, fire}
use faser.Timer.Wheels.Sums.{count, total}

abbrev pub length {ℓ} : {A : Type ℓ} → List A → ℕ
length [] = 0
length (x ∷ xs) = suc (length xs)

abbrev pub count_fired : (Entry → Bool) → List Firing → ℕ
count_fired q [] = 0
count_fired q (f ∷ fs) = count_if (q f.entry) + count_fired q fs

-- A timer that fires by `now` was due, and is told so.
pub record Due (now : ℕ) (f : Firing) : Type 0 where
  pub due : f.entry.deadline ≤ now
  pub completion : f.completion ≡ ok

-- An entry that can be put back into the wheel at `now`.
pub record Fits (now : ℕ) (e : Entry) : Type 0 where
  pub later : now < e.deadline
  pub near : e.deadline / 2 ^ 30 < now / 2 ^ 30 + 64

-- How far a sweep has come that started from the wheel `w`, with the entries `hand` still to settle:
-- nothing was lost, and nothing fired that was not due.
pub record Progress (now : ℕ) (w : Wheels) (hand : List Entry) (s : Sweep) : Type 0 where
  pub firings : List Firing
  pub fired_since : s.wheel.firings ≡ firings ++ w.firings
  pub counted : s.fired ≡ length firings
  pub due : All (Due now) firings
  pub fits : All (Fits now) s.pending
  pub alive : s.wheel.is_shutdown ≡ false
  pub kept :
      (q : Entry → Bool)
      → total q w.wheels
        ≡ count_fired q firings + count q s.pending + count q hand + total q s.wheel.wheels

-- Settling leaves the wheel alone.
pub record SameWheel (s s' : Sweep) : Type 0 where
  pub wheels : s'.wheel.wheels ≡ s.wheel.wheels
  pub elapsed : s'.wheel.elapsed ≡ s.wheel.elapsed

-- An entry of the hand: one that is not due comes from a higher level, and fits the wheel.
pub record Held (now level : ℕ) (e : Entry) : Type 0 where
  pub higher : now < e.deadline → level ≢ 0
  pub fits : now < e.deadline → e.deadline / 2 ^ 30 < now / 2 ^ 30 + 64

module _ (now : ℕ) (w : Wheels) (x : Expiration) where
  fired_one :
      (e : Entry) (es : List Entry) (s : Sweep)
      → ltb now e.deadline ≡ false
      → Progress now w (e ∷ es) s
      → Progress now w es (record s { wheel = fire ok e s.wheel; fired = s.fired + 1 })
  unfolding fire
  fired_one e es s h p = record {
    firings = record { entry = e; completion = ok } ∷ p.firings;
    fired_since = ap (λ fs. record { entry = e; completion = ok } ∷ fs) p.fired_since;
    counted = omega (arith, p.counted);
    due = (ground arith, p.due);
    fits = p.fits;
    alive = p.alive;
    kept = λ q. omega (arith, p.kept q);
  }

  put_by :
      (e : Entry) (es : List Entry) (s : Sweep)
      → Fits now e
      → Progress now w (e ∷ es) s
      → Progress now w es (record s { pending = e ∷ s.pending })
  put_by e es s h p = record {
    firings = p.firings;
    fired_since = p.fired_since;
    counted = p.counted;
    due = p.due;
    fits = (h, p.fits);
    alive = p.alive;
    kept = λ q. omega (arith, p.kept q);
  }

  -- The hand is settled to its end, with no failed assertion.
  pub settle_lem :
      (es : List Entry) (s : Sweep)
      → All (Held now x.level) es
      → Progress now w es s
      → (s' : Sweep) × (settle now x es s ≡ done s') × Progress now w [] s' × SameWheel s s'
  unfolding settle fire
  settle_lem [] s h p = (s, refl, p, record { wheels = refl; elapsed = refl })
  settle_lem (e ∷ es) s h p = elim (Bool-cases (ltb now e.deadline)) [
    | inl later ↦
        let fit : Fits now e = record { later = ground arith; near = h.0.fits (ground arith) } in
        let (s', r, p', m) =
          settle_lem es (record s { pending = e ∷ s.pending }) h.1 (put_by e es s fit p) in
        let up : (x.level == 0) ≡ false = ground (arith, h.0.higher (ground arith)) in
        (s', rw (later, up) r, p', record { wheels = m.wheels; elapsed = m.elapsed })
    | inr due ↦
        let (s', r, p', m) =
          settle_lem es (record s { wheel = fire ok e s.wheel; fired = s.fired + 1 }) h.1
            (fired_one e es s due p) in
        (s', rw due r, p', record { wheels = m.wheels; elapsed = m.elapsed })
  ]
