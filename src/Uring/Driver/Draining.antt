-- ===== src/Uring/Driver/Draining.antt =====
-- `drain` of norn-uring/src/driver/mod.rs handles the completions in chunks; what that comes to.
use faser.Prelude.{
  ℕ, zero, suc, ◌+◌, ◌≡◌, ◌≤◌, ◌<◌, inl, inr, refl, sym, ◌∙◌, ap, true, false, ltb, List, [], ◌∷◌,
  ◌++◌, Outcome, done, ◌>>=◌, bind_assoc, bind_congr, Bool-cases, arith,
}
use faser.Uring.Notify.Queue.{length, take, skip, length-skip}
use faser.Uring.Driver.{
  Driver, Cqe, Status, shutdown, drain, drain_live, drain_loop, quiet, dispatch, dispatch_all,
  set_status, complete_operation,
}

-- The driver with `cs` in its completion queue.
abbrev pub with_cq : List Cqe → Driver → Driver
with_cq cs d = record d { cq = cs }

abbrev pub framed : List Cqe → Outcome Driver → Outcome Driver
framed cs m = m >>= λ d. done (with_cq cs d)

set_status-framed :
    (s : Status) (cs : List Cqe) (d : Driver)
    → set_status s (with_cq cs d) ≡ framed cs (set_status s d)
unfolding set_status
set_status-framed s cs d = ground arith

dispatch-framed :
    (c : Cqe) (cs : List Cqe) (d : Driver) → dispatch c (with_cq cs d) ≡ framed cs (dispatch c d)
unfolding dispatch complete_operation
dispatch-framed c cs d = ground (arith, set_status-framed shutdown cs d)

pub dispatch_all-framed :
    (xs cs : List Cqe) (d : Driver) → dispatch_all xs (with_cq cs d) ≡ framed cs (dispatch_all xs d)
unfolding dispatch_all
dispatch_all-framed [] cs d = refl
dispatch_all-framed (x ∷ xs) cs d =
    ap (λ m. m >>= dispatch_all xs) (dispatch-framed x cs d)
    ∙ sym (bind_assoc (dispatch x d) (λ a. done (with_cq cs a)) (dispatch_all xs))
    ∙ bind_congr (dispatch x d) (λ a. dispatch_all-framed xs cs a)
    ∙ bind_assoc (dispatch x d) (dispatch_all xs) (λ a. done (with_cq cs a))

pub dispatch_all-append :
    (xs ys : List Cqe) (d : Driver)
    → dispatch_all (xs ++ ys) d ≡ (dispatch_all xs d >>= dispatch_all ys)
unfolding dispatch_all
dispatch_all-append [] ys d = refl
dispatch_all-append (x ∷ xs) ys d =
    bind_congr (dispatch x d) (λ a. dispatch_all-append xs ys a)
    ∙ bind_assoc (dispatch x d) (dispatch_all xs) (dispatch_all ys)

pub take-append-skip : (n : ℕ) (cs : List Cqe) → take n cs ++ skip n cs ≡ cs
take-append-skip zero cs = refl
take-append-skip (suc n) [] = refl
take-append-skip (suc n) (c ∷ cs) = ap (λ x. c ∷ x) (take-append-skip n cs)

length-take-skip : (n : ℕ) (cs : List Cqe) → length (take n cs) + length (skip n cs) ≡ length cs
length-take-skip zero cs = omega arith
length-take-skip (suc n) [] = omega arith
length-take-skip (suc n) (c ∷ cs) = omega (arith, length-take-skip n cs)

-- All completions of the queue handled one by one, in their order.
abbrev pub in_order : ℕ → Driver → Outcome (ℕ × Driver)
in_order total d = dispatch_all d.cq (with_cq [] d) >>= λ d'. done (total, d')

pub in_order-with_cq :
    (total : ℕ) (cs : List Cqe) (d : Driver)
    → in_order total (with_cq cs d) ≡ (dispatch_all cs d >>= λ a. done (total, with_cq [] a))
in_order-with_cq total cs d =
    ap (λ m. m >>= λ a. done (total, a)) (dispatch_all-framed cs [] d)
    ∙ sym (bind_assoc (dispatch_all cs d) (λ a. done (with_cq [] a)) (λ a. done (total, a)))

-- Handling the first chunk and then the rest is handling all.
chunk_lem :
    (n total : ℕ) (d : Driver)
    → (dispatch_all (take n d.cq) (with_cq (skip n d.cq) d) >>= in_order total) ≡ in_order total d
chunk_lem n total d =
    ap (λ m. m >>= in_order total) (dispatch_all-framed (take n d.cq) (skip n d.cq) d)
    ∙ sym (
        bind_assoc (dispatch_all (take n d.cq) d) (λ a. done (with_cq (skip n d.cq) a))
          (in_order total))
    ∙ bind_congr (dispatch_all (take n d.cq) d) (λ a. in_order-with_cq total (skip n d.cq) a)
    ∙ bind_assoc (dispatch_all (take n d.cq) d) (dispatch_all (skip n d.cq))
        (λ a. done (total, with_cq [] a))
    ∙ ap (λ m. m >>= λ a. done (total, with_cq [] a))
        (sym (dispatch_all-append (take n d.cq) (skip n d.cq) d))
    ∙ ap (λ cs. dispatch_all cs d >>= λ a. done (total, with_cq [] a)) (take-append-skip n d.cq)
    ∙ sym (in_order-with_cq total d.cq d)

take-all : (n : ℕ) (cs : List Cqe) → length cs ≤ n → take n cs ≡ cs
take-all zero [] h = refl
take-all zero (c ∷ cs) h = absurd (omega arith)
take-all (suc n) [] h = refl
take-all (suc n) (c ∷ cs) h = ap (λ x. c ∷ x) (take-all n cs (omega arith))

pub skip-all : (n : ℕ) (cs : List Cqe) → length cs ≤ n → skip n cs ≡ []
skip-all zero [] h = refl
skip-all zero (c ∷ cs) h = absurd (omega arith)
skip-all (suc n) [] h = refl
skip-all (suc n) (c ∷ cs) h = skip-all n cs (omega arith)

pub length-take : (n : ℕ) (cs : List Cqe) → n < length cs → length (take n cs) ≡ n
length-take zero cs h = refl
length-take (suc n) [] h = absurd (omega arith)
length-take (suc n) (c ∷ cs) h = ap suc (length-take n cs (omega arith))

-- The last round.
last_lem :
    (k n max total : ℕ) (d : Driver)
    → length d.cq ≤ n
    → drain_loop quiet (suc k) n max total d ≡ in_order (total + length d.cq) d
unfolding drain_loop
last_lem k n max total d h =
    let no_more : ltb n (length d.cq) ≡ false = ground arith in
    rw (no_more, take-all n d.cq h, skip-all n d.cq h) refl

-- A round with more to come.
more_lem :
    (k n max total : ℕ) (d : Driver)
    → n < length d.cq
    → total + length d.cq ≤ max
    → drain_loop quiet (suc k) n max total d ≡ (
        dispatch_all (take n d.cq) (with_cq (skip n d.cq) d)
        >>= drain_loop quiet k n max (total + n))
unfolding drain_loop
more_lem k n max total d h b =
    let more : ltb n (length d.cq) ≡ true = ground arith in
    let size = length-take n d.cq h in
    let below : ltb (total + length (take n d.cq)) max ≡ true = ground (arith, size) in
    rw (more, below)
      (ap
        (λ t.
          dispatch_all (take n d.cq) (with_cq (skip n d.cq) d)
          >>= drain_loop quiet k n max (total + t))
        size)

rest_lem :
    (k n max total : ℕ) (d : Driver)
    → ((a : Driver)
        → drain_loop quiet k n max (total + n) (with_cq (skip n d.cq) a)
          ≡ in_order (total + length d.cq) (with_cq (skip n d.cq) a))
    → (dispatch_all (take n d.cq) (with_cq (skip n d.cq) d)
        >>= drain_loop quiet k n max (total + n))
      ≡ in_order (total + length d.cq) d
rest_lem k n max total d h =
    ap (λ m. m >>= drain_loop quiet k n max (total + n)) framed_first
    ∙ sym (
        bind_assoc (dispatch_all (take n d.cq) d) (λ a. done (with_cq (skip n d.cq) a))
          (drain_loop quiet k n max (total + n)))
    ∙ bind_congr (dispatch_all (take n d.cq) d) h
    ∙ bind_assoc (dispatch_all (take n d.cq) d) (λ a. done (with_cq (skip n d.cq) a))
        (in_order (total + length d.cq))
    ∙ ap (λ m. m >>= in_order (total + length d.cq)) (sym framed_first)
    ∙ chunk_lem n (total + length d.cq) d
  where
    framed_first :
        dispatch_all (take n d.cq) (with_cq (skip n d.cq) d)
        ≡ framed (skip n d.cq) (dispatch_all (take n d.cq) d)
    framed_first = dispatch_all-framed (take n d.cq) (skip n d.cq) d

drain_loop_lem :
    (k n max total : ℕ) (d : Driver)
    → 0 < n
    → length d.cq < k
    → total + length d.cq ≤ max
    → drain_loop quiet k n max total d ≡ in_order (total + length d.cq) d
drain_loop_lem zero n max total d p h b = absurd (omega arith)
drain_loop_lem (suc k) n max total d p h b = elim (Bool-cases (ltb n (length d.cq))) [
  | inr e ↦ last_lem k n max total d (ground arith)
  | inl e ↦
      let more : n < length d.cq = ground arith in
      let sum : total + n + length (skip n d.cq) ≡ total + length d.cq =
        omega (arith, length-skip n d.cq) in
      more_lem k n max total d more b
      ∙ rest_lem k n max total d (λ a.
        drain_loop_lem k n max (total + n) (with_cq (skip n d.cq) a) p
          (omega (arith, length-skip n d.cq)) (omega (arith, sum))
        ∙ ap (λ t. in_order t (with_cq (skip n d.cq) a)) sum)
]

-- `drain` in chunks of any positive size, with a maximum no less than the number of completions,
-- does what handling all completions of the queue one by one in their order does, also where that
-- panics.
pub drain-in_order :
    (n max : ℕ) (d : Driver) → 0 < n → length d.cq ≤ max → drain n max d ≡ in_order (length d.cq) d
unfolding drain drain_live
drain-in_order n max d p b =
    let sum : 0 + length d.cq ≡ length d.cq = omega arith in
    drain_loop_lem (suc max) n max 0 d p (omega arith) (omega arith) ∙ ap (λ t. in_order t d) sum
