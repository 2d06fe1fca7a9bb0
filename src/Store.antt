-- ===== src/Store.antt =====
-- Functions from the natural numbers, for what the code keeps in arrays or behind pointers.
use faser.Prelude.{ℕ, ◌≡◌, ◌≢◌, ◌==◌, if◌then◌else◌, arith}

abbrev pub update {ℓ} : {A : Type ℓ} → (ℕ → A) → ℕ → A → ℕ → A
update f k v i = if i == k then v else f i

pub update_self {ℓ} : {A : Type ℓ} (f : ℕ → A) (k : ℕ) (v : A) → update f k v k ≡ v
update_self f k v = ground arith

pub update_other {ℓ} :
    {A : Type ℓ} (f : ℕ → A) (k : ℕ) (v : A) (i : ℕ) → i ≢ k → update f k v i ≡ f i
update_other f k v i h = ground arith
