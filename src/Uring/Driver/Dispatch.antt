-- ===== src/Uring/Driver/Dispatch.antt =====
-- What `drain` of norn-uring/src/driver/mod.rs does with one completion.
use native.Mathlib.Decide.{ℕ_discrete}
use faser.Prelude.{
  ℕ, ◌≡◌, ◌≢◌, ◌≤◌, ◌<◌, ◌⊎◌, inl, inr, refl, sym, ◌∙◌, ap, subst, Bool, true, false, leb, ltb,
  Outcome, done, ◌>>=◌, Ensures, Ensures-map, Ensures-weaken, Ensures-both, Bool-cases, arith,
}
use faser.Store.{update, update_self, update_other}
use faser.Uring.Notify.{notify}
use faser.Uring.Notify.Firing.{notify_lem}
use faser.Uring.Notify.Firing
use faser.Uring.Operation.{
  CqeResult, World, complete, push_completion, drop_ref, destroy, completes,
}
use faser.Uring.Operation
use faser.Uring.Operation.Safety.{Inv, does-Inv}
use faser.Uring.Unparker.{reset}
use faser.Uring.Driver.{
  Driver, Cqe, Status, shutdown, dispatch, set_status, complete_operation, usize_max, same,
}

abbrev pub holds : Driver → ℕ → Bool
holds d u = (d.ops u).kernel

-- `single` tells the single-shot operations from the others.
pub record Sound (single : ℕ → Bool) (d : Driver) : Type 0 where
  pub ops : (u : ℕ) → 1024 < u → Inv (single u) (d.ops u)
  pub backpressure : Firing.Inv d.backpressure

complete-kernel :
    (single : Bool) (c : CqeResult) (w : World)
    → Inv single w
    → w.kernel ≡ true
    → Ensures (λ w'. w'.kernel ≡ c.more) (complete c w)
unfolding complete push_completion drop_ref destroy
complete-kernel single c w v p = ground arith

complete-Sound :
    (single : Bool) (c : CqeResult) (w : World)
    → Inv single w
    → w.kernel ≡ true
    → (single ≡ true → c.more ≡ false)
    → Ensures (λ w'. Inv single w' × (w'.kernel ≡ c.more)) (complete c w)
unfolding Operation.perform
complete-Sound single c w v p m =
    Ensures-both (Inv single) (λ w'. w'.kernel ≡ c.more) (complete c w)
      (does-Inv single (completes c) w v (p, m)) (complete-kernel single c w v p)

-- What handling `c` may change.
pub record Handled (single : ℕ → Bool) (c : Cqe) (d d' : Driver) : Type 0 where
  pub sound : Sound single d'
  pub held : (u : ℕ) → 1024 < u → holds d' u ≡ update (holds d) c.user_data c.cqe.more u
  pub others : (u : ℕ) → u ≢ c.user_data → d'.ops u ≡ d.ops u

reset_status :
    (single : ℕ → Bool) (s : Status) (d d' : Driver)
    → Sound single d
    → Firing.Inv d'.backpressure
    → d'.ops ≡ d.ops
    → Sound single (record d' { status = s }) × (d'.ops ≡ d.ops)
reset_status single s d d' v n e = (
  record { ops = λ u h. subst (λ f. Inv (single u) (f u)) (sym e) (v.ops u h); backpressure = n },
  e,
)

set_status-Sound :
    (single : ℕ → Bool) (s : Status) (d : Driver)
    → Sound single d
    → Ensures (λ d'. Sound single d' × (d'.ops ≡ d.ops)) (set_status s d)
unfolding set_status
set_status-Sound single s d v = elim (Bool-cases (same s d.status)) [
  | inl e ↦ rw e (reset_status single s d d v v.backpressure refl)
  | inr e ↦ rw e (
      Ensures-map (λ d'. Firing.Inv d'.backpressure × (d'.ops ≡ d.ops))
        (λ d'. Sound single d' × (d'.ops ≡ d.ops)) (λ d'. done (record d' { status = s }))
        (notify usize_max d.backpressure >>= λ r. done (record d { backpressure = r.1 }))
        (λ d' (n, e). reset_status single s d d' v n e)
        (Ensures-map _ (λ d'. Firing.Inv d'.backpressure × (d'.ops ≡ d.ops))
          (λ r. done (record d { backpressure = r.1 })) (notify usize_max d.backpressure)
          (λ r (x, y, z). (z, refl)) (notify_lem usize_max d.backpressure v.backpressure)))
]

abbrev Small : Cqe → Driver → Driver → Type 0
Small c d d' = (c.user_data ≤ 1024) × (d'.ops ≡ d.ops)

small_lem :
    (single : ℕ → Bool) (c : Cqe) (d d' : Driver)
    → Sound single d'
    → Small c d d'
    → Handled single c d d'
small_lem single c d d' v (h, e) = record {
  sound = v;
  held = λ u k.
      ap (λ f. (f u).kernel) e
      ∙ sym (update_other (holds d) c.user_data c.cqe.more u (λ p. omega (arith, p)));
  others = λ u n. ap (λ f. f u) e;
}

complete_operation-Handled :
    (single : ℕ → Bool) (c : Cqe) (d : Driver)
    → Sound single d
    → 1024 < c.user_data
    → (holds d c.user_data ≡ true) × (single c.user_data ≡ true → c.cqe.more ≡ false)
    → Ensures (Handled single c d) (complete_operation c d)
unfolding complete_operation
complete_operation-Handled single c d v h k =
    let room : ltb 1024 c.user_data ≡ true = ground arith in
    rw (Ensures, room)
      (Ensures-map _ (Handled single c d)
        (λ w. done (record d { ops = update d.ops c.user_data w }))
        (complete c.cqe (d.ops c.user_data)) (λ w (i, m). handled w i m)
        (complete-Sound (single c.user_data) c.cqe (d.ops c.user_data) (v.ops c.user_data h) k.0
          k.1))
  where
    handled :
        (w : World)
        → Inv (single c.user_data) w
        → w.kernel ≡ c.cqe.more
        → Handled single c d (record d { ops = update d.ops c.user_data w })
    handled w i m = record {
      sound = record {
        ops = λ u g. elim (ℕ_discrete u c.user_data) [
          | yes p ↦
              subst (λ x. Inv (single x) (update d.ops c.user_data w x)) (sym p)
                (subst (Inv (single c.user_data)) (sym (update_self d.ops c.user_data w)) i)
          | no p ↦ subst (Inv (single u)) (sym (update_other d.ops c.user_data w u p)) (v.ops u g)
        ];
        backpressure = v.backpressure;
      };
      held = λ u g. elim (ℕ_discrete u c.user_data) [
        | yes p ↦
            ap (λ x. (update d.ops c.user_data w x).kernel) p
            ∙ ap (λ (x : World). x.kernel) (update_self d.ops c.user_data w)
            ∙ m
            ∙ sym (update_self (holds d) c.user_data c.cqe.more)
            ∙ ap (update (holds d) c.user_data c.cqe.more) (sym p)
        | no p ↦
            ap (λ (x : World). x.kernel) (update_other d.ops c.user_data w u p)
            ∙ sym (update_other (holds d) c.user_data c.cqe.more u p)
      ];
      others = λ u n. update_other d.ops c.user_data w u n;
    }

-- What `dispatch` does, by the token.
pub dispatch_cases :
    (c : Cqe) (d : Driver)
    → (c.user_data ≤ 1024) × (dispatch c d ≡ set_status shutdown d)
      ⊎ (c.user_data ≤ 1024) × (dispatch c d ≡ done (record d { unparker = reset d.unparker }))
      ⊎ (c.user_data ≤ 1024) × (dispatch c d ≡ done d)
      ⊎ (1024 < c.user_data) × (dispatch c d ≡ complete_operation c d)
unfolding dispatch
dispatch_cases c d = elim (ℕ_discrete c.user_data 1) [
  | yes p ↦ inl (omega arith, ground arith)
  | no p ↦ elim (ℕ_discrete c.user_data 2) [
    | yes q ↦ inr (inl (omega arith, ground arith))
    | no q ↦ elim (Bool-cases (leb c.user_data 1024)) [
      | inl e ↦ inr (inr (inl (ground arith, ground arith)))
      | inr e ↦ inr (inr (inr (ground arith, ground arith)))
    ]
  ]
]

tokens_lem :
    (single : ℕ → Bool) (c : Cqe) (d : Driver) (m : Outcome Driver)
    → Sound single d
    → c.user_data ≤ 1024
    → dispatch c d ≡ m
    → Ensures (λ d'. Sound single d' × (d'.ops ≡ d.ops)) m
    → Ensures (Handled single c d) (dispatch c d)
tokens_lem single c d m v h e p =
    Ensures-weaken (λ d'. Sound single d' × (d'.ops ≡ d.ops)) (Handled single c d) (dispatch c d)
      (λ d' (w, o). small_lem single c d d' w (h, o))
      (subst (Ensures (λ d'. Sound single d' × (d'.ops ≡ d.ops))) (sym e) p)

pub dispatch-Handled :
    (single : ℕ → Bool) (c : Cqe) (d : Driver)
    → Sound single d
    → (1024 < c.user_data
        → (holds d c.user_data ≡ true) × (single c.user_data ≡ true → c.cqe.more ≡ false))
    → Ensures (Handled single c d) (dispatch c d)
dispatch-Handled single c d v k = elim (dispatch_cases c d) [
  | inl (h, e) ↦ tokens_lem single c d _ v h e (set_status-Sound single shutdown d v)
  | inr (inl (h, e)) ↦
      tokens_lem single c d _ v h e (record { ops = v.ops; backpressure = v.backpressure }, refl)
  | inr (inr (inl (h, e))) ↦ tokens_lem single c d _ v h e (v, refl)
  | inr (inr (inr (h, e))) ↦
      subst (Ensures (Handled single c d)) (sym e) (complete_operation-Handled single c d v h (k h))
]
