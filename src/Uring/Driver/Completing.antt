-- ===== src/Uring/Driver/Completing.antt =====
-- The completions that `drain` of norn-uring/src/driver/mod.rs hands to the operations of
-- norn-uring/src/operation.
use native.Mathlib.Decide.{ℕ_discrete}
use faser.Prelude.{
  ℕ, zero, suc, ◌+◌, ◌≡◌, ◌≤◌, ◌<◌, ◌⊎◌, inl, inr, refl, sym, ◌∙◌, ap, subst, Bool, true, false,
  ◌&&◌, ltb, List, [], ◌∷◌, ◌++◌, append_assoc, Outcome, done, panic, fault, no_fuel, Ensures,
  Ensures-map, Ensures-weaken, Ensures-both, All, ◌≢◌, Bool-cases, arith,
}
use faser.Store.{update, update_self, update_other}
use faser.Uring.Notify.Queue.{length, take, skip}
use faser.Uring.Driver.{Driver, Cqe, drain_live, drain_loop, arrive, dispatch, dispatch_all}
use faser.Uring.Driver.Dispatch.{holds, Sound, Handled, dispatch-Handled}
use faser.Uring.Driver.Draining.{
  with_cq, framed, dispatch_all-framed, take-append-skip, skip-all, length-take,
}

-- The kernel completes an operation until it posts a completion without `more`, which is the first one
-- of a single-shot operation; `held` tells which operations it has.
abbrev pub Owned : (ℕ → Bool) → List Cqe → (ℕ → Bool) → Type 0
Owned single [] held = Unit {0}
Owned single (c ∷ cs) held =
    (1024 < c.user_data
      → (held c.user_data ≡ true) × (single c.user_data ≡ true → c.cqe.more ≡ false))
    × Owned single cs (update held c.user_data c.cqe.more)

-- Two ways to tell what the kernel has agree on the operations.
abbrev pub Agrees : (ℕ → Bool) → (ℕ → Bool) → Type 0
Agrees f g = (u : ℕ) → 1024 < u → f u ≡ g u

pub Owned-Agrees :
    (single : ℕ → Bool) (cs : List Cqe) (f g : ℕ → Bool)
    → Agrees f g
    → Owned single cs f
    → Owned single cs g
Owned-Agrees single [] f g a o = tt
Owned-Agrees single (c ∷ cs) f g a o = (
  λ h. (sym (a c.user_data h) ∙ (o.0 h).0, (o.0 h).1),
  Owned-Agrees single cs (update f c.user_data c.cqe.more) (update g c.user_data c.cqe.more)
      (λ u h. elim (ℕ_discrete u c.user_data) [
        | yes p ↦
            ap (update f c.user_data c.cqe.more) p
            ∙ update_self f c.user_data c.cqe.more
            ∙ sym (update_self g c.user_data c.cqe.more)
            ∙ ap (update g c.user_data c.cqe.more) (sym p)
        | no p ↦
            update_other f c.user_data c.cqe.more u p
            ∙ a u h
            ∙ sym (update_other g c.user_data c.cqe.more u p)
      ])
      o.1,
)

-- Handling the first completions leaves the operations in order, and the kernel with those for which the
-- others come, however many of these there are.
dispatch_all-Sound :
    (single : ℕ → Bool) (xs : List Cqe) (ys : ℕ → List Cqe) (d : Driver)
    → Sound single d
    → ((i : ℕ) → Owned single (xs ++ ys i) (holds d))
    → Ensures
        (λ d'. Sound single d' × ((i : ℕ) → Owned single (ys i) (holds d')))
        (dispatch_all xs d)
unfolding dispatch_all
dispatch_all-Sound single [] ys d v o = (v, o)
dispatch_all-Sound single (c ∷ xs) ys d v o =
    Ensures-map (Handled single c d)
      (λ d'. Sound single d' × ((i : ℕ) → Owned single (ys i) (holds d'))) (dispatch_all xs)
      (dispatch c d)
      (λ d' h. dispatch_all-Sound single xs ys d' h.sound (λ i.
        Owned-Agrees single (xs ++ ys i) (update (holds d) c.user_data c.cqe.more) (holds d')
          (λ u g. sym (h.held u g)) (o i).1))
      (dispatch-Handled single c d v (o 0).0)

-- Handling completions of other operations leaves an operation as it is.
pub dispatch_all-Others :
    (single : ℕ → Bool) (u : ℕ) (cs : List Cqe) (d : Driver)
    → Sound single d
    → Owned single cs (holds d)
    → All (λ c. u ≢ c.user_data) cs
    → Ensures (λ d'. d'.ops u ≡ d.ops u) (dispatch_all cs d)
unfolding dispatch_all
dispatch_all-Others single u [] d v o n = refl
dispatch_all-Others single u (c ∷ cs) d v o n =
    Ensures-map (Handled single c d) (λ d'. d'.ops u ≡ d.ops u) (dispatch_all cs) (dispatch c d)
      (λ d' h.
        Ensures-weaken (λ e. e.ops u ≡ d'.ops u) (λ e. e.ops u ≡ d.ops u) (dispatch_all cs d')
          (λ e p. p ∙ h.others u n.0)
          (dispatch_all-Others single u cs d' h.sound
            (Owned-Agrees single cs (update (holds d) c.user_data c.cqe.more) (holds d')
              (λ i g. sym (h.held i g)) o.1)
            n.1))
      (dispatch-Handled single c d v o.0)

framed_cq :
    (cs : List Cqe) (m : Outcome Driver) (P : Driver → Type 0)
    → Ensures P (framed cs m)
    → Ensures (λ d. d.cq ≡ cs) (framed cs m)
framed_cq cs (done d) P h = refl
framed_cq cs panic P h = absurd h
framed_cq cs fault P h = absurd h
framed_cq cs no_fuel P h = absurd h

dispatch_all-cq :
    (xs cs : List Cqe) (d : Driver) (P : Driver → Type 0)
    → Ensures P (dispatch_all xs (with_cq cs d))
    → Ensures (λ d'. P d' × (d'.cq ≡ cs)) (dispatch_all xs (with_cq cs d))
dispatch_all-cq xs cs d P h =
    Ensures-both P (λ d'. d'.cq ≡ cs) (dispatch_all xs (with_cq cs d)) h
      (subst (Ensures (λ d'. d'.cq ≡ cs)) (sym (dispatch_all-framed xs cs d))
        (framed_cq cs (dispatch_all xs d) P (subst (Ensures P) (dispatch_all-framed xs cs d) h)))

-- What the kernel posts before the next `i` rounds.
abbrev pub upto : (ℕ → List Cqe) → ℕ → List Cqe
upto posts zero = []
upto posts (suc i) = posts 0 ++ upto (λ j. posts (suc j)) i

-- All completions that are queued and that come are for operations that the kernel has.
abbrev pub Fed : (ℕ → Bool) → (ℕ → List Cqe) → Driver → Type 0
Fed single posts d = (i : ℕ) → Owned single (d.cq ++ upto posts i) (holds d)

arrive-Fed :
    (single : ℕ → Bool) (cs : List Cqe) (ys : ℕ → List Cqe) (d : Driver)
    → Sound single d
    → ((i : ℕ) → Owned single (d.cq ++ (cs ++ ys i)) (holds d))
    → Sound single (arrive cs d)
      × ((i : ℕ) → Owned single ((arrive cs d).cq ++ ys i) (holds (arrive cs d)))
arrive-Fed single [] ys d v o = (v, o)
arrive-Fed single (c ∷ cs) ys d v o = (
  record { ops = v.ops; backpressure = v.backpressure },
  λ i. subst (λ xs. Owned single xs (holds d)) (sym (append_assoc d.cq (c ∷ cs) (ys i))) (o i),
)

-- After the completions of a round.
abbrev Round : (ℕ → Bool) → ℕ → (ℕ → List Cqe) → Driver → Driver → Type 0
Round single n ys d d' =
    (Sound single d' × ((i : ℕ) → Owned single (skip n d.cq ++ ys i) (holds d')))
    × (d'.cq ≡ skip n d.cq)

round-Sound :
    (single : ℕ → Bool) (n : ℕ) (ys : ℕ → List Cqe) (d : Driver)
    → Sound single d
    → ((i : ℕ) → Owned single (d.cq ++ ys i) (holds d))
    → Ensures (Round single n ys d) (dispatch_all (take n d.cq) (with_cq (skip n d.cq) d))
round-Sound single n ys d v o =
    dispatch_all-cq (take n d.cq) (skip n d.cq) d
      (λ d'. Sound single d' × ((i : ℕ) → Owned single (skip n d.cq ++ ys i) (holds d')))
      (dispatch_all-Sound single (take n d.cq) (λ i. skip n d.cq ++ ys i) (with_cq (skip n d.cq) d)
        (record { ops = v.ops; backpressure = v.backpressure })
        (λ i.
          subst (λ xs. Owned single xs (holds d))
            (ap (λ xs. xs ++ ys i) (sym (take-append-skip n d.cq))
              ∙ append_assoc (take n d.cq) (skip n d.cq) (ys i))
            (o i)))

-- What `drain` comes to.
abbrev pub Drained : (ℕ → Bool) → ℕ → ℕ → ℕ × Driver → Type 0
Drained single n max r = Sound single r.1 × (r.0 ≤ max + n) × ((max ≤ r.0) ⊎ (r.1.cq ≡ []))

length-take_le : (n : ℕ) (cs : List Cqe) → length (take n cs) ≤ n
length-take_le zero cs = omega arith
length-take_le (suc n) [] = omega arith
length-take_le (suc n) (c ∷ cs) = omega (arith, length-take_le n cs)

round_by :
    (single : ℕ → Bool) (f : ℕ → Driver → Outcome (ℕ × Driver)) (n max total : ℕ)
    (ys : ℕ → List Cqe) (d d' : Driver)
    → total ≤ max
    → Round single n ys d d'
    → (n < length d.cq
        → total + n < max
        → Ensures (Drained single n max) (f (total + length (take n d.cq)) d'))
    → (b : Bool) → (ltb n (length d.cq) && ltb (total + length (take n d.cq)) max) ≡ b
    → Ensures (Drained single n max) (elim b [
      | true ↦ f (total + length (take n d.cq)) d'
      | false ↦ done (total + length (take n d.cq), d')
    ])
round_by single f n max total ys d d' t w g true e =
    let more : n < length d.cq = ground arith in g more (ground (arith, length-take n d.cq more))
round_by single f n max total ys d d' t w g false e = (
  w.0.0,
  omega (arith, t, length-take_le n d.cq),
  elim (Bool-cases (ltb n (length d.cq))) [
    | inl m ↦ inl (ground arith)
    | inr m ↦ inr (w.1 ∙ skip-all n d.cq (ground arith))
  ],
)

drain_loop-Drained :
    (single : ℕ → Bool) (posts : ℕ → List Cqe) (k n max total : ℕ) (d : Driver)
    → 0 < n
    → total ≤ max
    → max < total + k
    → Sound single d
    → Fed single posts d
    → Ensures (Drained single n max) (drain_loop posts k n max total d)
unfolding drain_loop
drain_loop-Drained single posts zero n max total d p t h v o = absurd (omega arith)
drain_loop-Drained single posts (suc k) n max total d p t h v o =
    let rest : ℕ → List Cqe = λ i. posts (suc i) in
    let e = arrive (posts 0) d in
    let (w, q) = arrive-Fed single (posts 0) (upto rest) d v (λ i. o (suc i)) in
    Ensures-map (Round single n (upto rest) e) (Drained single n max)
      (λ d'. elim (ltb n (length e.cq) && ltb (total + length (take n e.cq)) max) [
        | true ↦ drain_loop rest k n max (total + length (take n e.cq)) d'
        | false ↦ done (total + length (take n e.cq), d')
      ])
      (dispatch_all (take n e.cq) (with_cq (skip n e.cq) e))
      (λ d' r.
        round_by single (drain_loop rest k n max) n max total (upto rest) e d' t r
          (λ more below.
            let size = length-take n e.cq more in
            drain_loop-Drained single rest k n max (total + length (take n e.cq)) d' p
              (omega (arith, size)) (omega (arith, size)) r.0.0
              (λ i. subst (λ xs. Owned single (xs ++ upto rest i) (holds d')) (sym r.1) (r.0.1 i)))
          (ltb n (length e.cq) && ltb (total + length (take n e.cq)) max) refl)
      (round-Sound single n (upto rest) e w q)

-- `drain`, with chunks of any positive size and any maximum, ends within one round more than the
-- maximum, whatever the kernel posts before each round reads the completion queue, if the kernel
-- posts for an operation only while it has it and for a single-shot one only a last completion,
-- and the operations and the waiters are in order: no operation panics or touches freed memory,
-- the operations and the waiters are in order again, it reports at most the maximum and one chunk,
-- and it stops only once it has drained the maximum or has left the queue as it last read it
-- empty.
pub drain-Sound :
    (single : ℕ → Bool) (posts : ℕ → List Cqe) (n max : ℕ) (d : Driver)
    → 0 < n
    → Sound single d
    → Fed single posts d
    → Ensures (Drained single n max) (drain_live posts n max d)
unfolding drain_live
drain-Sound single posts n max d p v o =
    drain_loop-Drained single posts (suc max) n max 0 d p (omega arith) (omega arith) v o
