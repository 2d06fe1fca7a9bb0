-- ===== src/Prelude.antt =====
-- Names that the models share: the libraries', passed on, Boolean tests over the native numbers,
-- and the outcome of code that may panic.
pub use Prim.Native.Nat.{ℕ, zero, suc, ◌+◌, ◌-◌, ◌*◌, ◌/◌, ◌%◌, ◌^◌, ◌≤◌, ◌<◌, min}
use Prim.Native.Nat.{compare, Ordering}
pub use mathlib.Core.Path.{◌≡◌, refl, sym, ap, subst, ◌∙◌}
pub use mathlib.Core.Logic.{◌≢◌, ◌↔◌, ◌⊎◌, inl, inr}
pub use mathlib.Core.Bool.{Bool, true, false, not, ◌&&◌, ◌||◌}
pub use mathlib.Core.Option.{Option, none, some}
pub use mathlib.Core.List.{List, [], ◌∷◌, ◌++◌, map, append-nil, append_assoc}
pub use native.Mathlib.Omega.{arith}

abbrev pub ltb : ℕ → ℕ → Bool
ltb a b = elim (compare a b) [ Ordering.lt ↦ true | _ ↦ false ]

abbrev pub leb : ℕ → ℕ → Bool
leb a b = elim (compare a b) [ Ordering.gt ↦ false | _ ↦ true ]

infix 50 ◌==◌
abbrev pub ◌==◌ : ℕ → ℕ → Bool
a == b = elim (compare a b) [ Ordering.eq ↦ true | _ ↦ false ]

infix 1 if◌then◌else◌
abbrev pub if◌then◌else◌ {ℓ} : {A : Type ℓ} → Bool → A → A → A
if true then x else y = x
if false then x else y = y

abbrev pub count_if : Bool → ℕ
count_if true = 1
count_if false = 0

pub Bool-cases : (b : Bool) → (b ≡ true) ⊎ (b ≡ false)
Bool-cases true = inl refl
Bool-cases false = inr refl

-- `P` holds of every member.
abbrev pub All {ℓ} : {A : Type ℓ} → (A → Type 0) → List A → Type 0
All P [] = Unit
All P (x ∷ xs) = P x × All P xs

pub All-map {ℓ} :
    {A : Type ℓ} (P Q : A → Type 0) → ((a : A) → P a → Q a) → (xs : List A) → All P xs → All Q xs
All-map P Q f [] h = tt
All-map P Q f (x ∷ xs) h = (f x h.0, All-map P Q f xs h.1)

pub All-map₂ {ℓ} :
    {A : Type ℓ} (P Q R : A → Type 0)
    → ((a : A) → P a → Q a → R a)
    → (xs : List A) → All P xs
    → All Q xs
    → All R xs
All-map₂ P Q R f [] h k = tt
All-map₂ P Q R f (x ∷ xs) h k = (f x h.0 k.0, All-map₂ P Q R f xs h.1 k.1)

-- What running a piece of Rust code comes to. `panic` is a failed `assert!`, `expect` or
-- `unreachable!`, also where a guard turns it into an abort of the process; `fault` is an access to
-- memory that has been freed; `no_fuel` is a loop of the model that was given too few rounds.
pub data Outcome {ℓ} (A : Type ℓ) : Type ℓ where
  done : A → Outcome A
  panic : Outcome A
  fault : Outcome A
  no_fuel : Outcome A

infixl 5 ◌>>=◌ ◌>>◌
abbrev pub ◌>>=◌ {ℓ κ} : {A : Type ℓ} {B : Type κ} → Outcome A → (A → Outcome B) → Outcome B
done a >>= f = f a
panic >>= f = panic
fault >>= f = fault
no_fuel >>= f = no_fuel

abbrev pub ◌>>◌ {ℓ} : {B : Type ℓ} → Outcome (Unit {0}) → Outcome B → Outcome B
m >> k = m >>= λ _. k

-- `assert!`.
abbrev pub assert : Bool → Outcome (Unit {0})
assert true = done tt
assert false = panic

-- The code runs to its end, and `P` holds of what it returns.
abbrev pub Ensures {ℓ} : {A : Type ℓ} → (A → Type 0) → Outcome A → Type 0
Ensures P (done a) = P a
Ensures P panic = ⊥
Ensures P fault = ⊥
Ensures P no_fuel = ⊥

pub bind_assoc {ℓ κ μ} :
    {A : Type ℓ} {B : Type κ} {C : Type μ} (m : Outcome A) (f : A → Outcome B) (g : B → Outcome C)
    → (m >>= λ a. f a >>= g) ≡ ((m >>= f) >>= g)
bind_assoc (done a) f g = refl
bind_assoc panic f g = refl
bind_assoc fault f g = refl
bind_assoc no_fuel f g = refl

pub Ensures-map {ℓ κ} :
    {A : Type ℓ} {B : Type κ} (P : A → Type 0) (Q : B → Type 0) (f : A → Outcome B) (m : Outcome A)
    → ((a : A) → P a → Ensures Q (f a))
    → Ensures P m
    → Ensures Q (m >>= f)
Ensures-map P Q f (done a) h p = h a p
Ensures-map P Q f panic h p = absurd p
Ensures-map P Q f fault h p = absurd p
Ensures-map P Q f no_fuel h p = absurd p

pub Ensures-weaken {ℓ} :
    {A : Type ℓ} (P Q : A → Type 0) (m : Outcome A)
    → ((a : A) → P a → Q a)
    → Ensures P m
    → Ensures Q m
Ensures-weaken P Q (done a) h p = h a p
Ensures-weaken P Q panic h p = absurd p
Ensures-weaken P Q fault h p = absurd p
Ensures-weaken P Q no_fuel h p = absurd p

pub bind_congr {ℓ κ} :
    {A : Type ℓ} {B : Type κ} (m : Outcome A) {f g : A → Outcome B}
    → ((a : A) → f a ≡ g a)
    → (m >>= f) ≡ (m >>= g)
bind_congr (done a) h = h a
bind_congr panic h = refl
bind_congr fault h = refl
bind_congr no_fuel h = refl

pub Ensures-both {ℓ} :
    {A : Type ℓ} (P Q : A → Type 0) (m : Outcome A)
    → Ensures P m
    → Ensures Q m
    → Ensures (λ a. P a × Q a) m
Ensures-both P Q (done a) p q = (p, q)
Ensures-both P Q panic p q = absurd p
Ensures-both P Q fault p q = absurd p
Ensures-both P Q no_fuel p q = absurd p
