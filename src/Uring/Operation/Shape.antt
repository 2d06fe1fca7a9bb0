-- ===== src/Uring/Operation/Shape.antt =====
-- Which completions an operation of norn-uring/src/operation can hold, and how they are counted.
use faser.Prelude.{ℕ, ◌+◌, ◌≡◌, refl, ap, Bool, false, List, [], ◌∷◌, ◌++◌, done, count_if, arith}
use faser.Uring.Operation.{CqeResult, resolve, pop_from, onto}

-- The one completion of a `Singleshot`.
abbrev pub Final : List CqeResult → Type 0
Final [] = ⊥
Final (c ∷ []) = c.more ≡ false
Final (c ∷ d ∷ cs) = ⊥

abbrev pub count : (CqeResult → Bool) → List CqeResult → ℕ
count q [] = 0
count q (c ∷ cs) = count_if (q c) + count q cs

pub count-append :
    (q : CqeResult → Bool) (cs ds : List CqeResult) → count q (cs ++ ds) ≡ count q cs + count q ds
count-append q [] ds = omega arith
count-append q (c ∷ cs) ds = omega (arith, count-append q cs ds)

pub count-onto :
    (q : CqeResult → Bool) (cs ds : List CqeResult) → count q (onto cs ds) ≡ count q cs + count q ds
count-onto q [] ds = omega arith
count-onto q (c ∷ cs) ds = omega (arith, count-onto q cs (c ∷ ds))

-- The loop delivers the completion and returns it.
pub resolve_lem :
    (cs ds : List CqeResult)
    → Final cs
    → (c : CqeResult) × (resolve cs ds ≡ done (c, onto cs ds)) × (c.more ≡ false)
unfolding resolve
resolve_lem [] ds h = absurd h
resolve_lem (c ∷ []) ds h = (c, ground arith, h)
resolve_lem (c ∷ d ∷ cs) ds h = absurd h

-- What `pop` takes is the last.
pub pop_from_lem :
    (c : CqeResult) (cs : List CqeResult) → c ∷ cs ≡ (pop_from c cs).1 ++ ((pop_from c cs).0 ∷ [])
unfolding pop_from
pop_from_lem c [] = refl
pop_from_lem c (d ∷ ds) = ap (λ (xs : List CqeResult). c ∷ xs) (pop_from_lem d ds)
