-- ===== src/Uring/BufRing/Powers.antt =====
-- The number of entries that `Builder::build` of norn-uring/src/bufring.rs rounds up to.
use native.Mathlib.Decide.{dec_le}
use native.Mathlib.Nat.{pow-suc, pow-succ', mod_self, dvd_refl, dvd-mul_left_of_dvd}
use Prim.Native.Nat.{bit_and, ◌∣◌}
use faser.Prelude.{
  ℕ, zero, suc, ◌+◌, ◌-◌, ◌^◌, ◌≤◌, ◌≡◌, inl, inr, refl, sym, ◌∙◌, ap, subst, false, leb,
  Bool-cases, arith,
}
use faser.Uring.BufRing.{double_until, next_power_of_two}
use faser.Uring.BufRing.Mask.{and_mask}

double_until_lem :
    (fuel j n : ℕ)
    → j + fuel ≤ 16
    → n ≤ 2 ^ 15
    → 15 ≤ j + fuel
    → j ≤ 15
    → (k : ℕ) × (k ≤ 15) × (double_until fuel (2 ^ j) n ≡ 2 ^ k) × (n ≤ 2 ^ k)
unfolding double_until
double_until_lem zero j n h b f s = (j, s, refl, let e : j ≡ 15 = omega arith in rw e b)
double_until_lem (suc fuel) j n h b f s = elim (Bool-cases (leb n (2 ^ j))) [
  | inl e ↦ (j, s, rw e refl, ground (arith, e))
  | inr e ↦ elim (dec_le (suc j) 15) [
    | yes q ↦
        let (k, t, u, v) = double_until_lem fuel (suc j) n (omega arith) b (omega arith) q in
        (k, t, rw e (ap (λ (p : ℕ). double_until fuel p n) (sym (pow-suc 2 j)) ∙ u), v)
    | no q ↦
        let full : j ≡ 15 = omega arith in
        let small : leb n (2 ^ 15) ≡ false = subst (λ i. leb n (2 ^ i) ≡ false) full e in
        absurd (ground (arith, small))
  ]
]

pub next_power_of_two_lem :
    (n : ℕ) → n ≤ 2 ^ 15 → (k : ℕ) × (k ≤ 15) × (next_power_of_two n ≡ 2 ^ k) × (n ≤ 2 ^ k)
unfolding next_power_of_two
next_power_of_two_lem n h = double_until_lem 16 0 n (omega arith) h (omega arith) (omega arith)

power-dvd : (k d : ℕ) → (2 ^ k) ∣ (2 ^ (k + d))
power-dvd k zero =
    subst (λ n. (2 ^ k) ∣ (2 ^ n)) (let e : k ≡ k + 0 = omega arith in e) (dvd_refl (2 ^ k))
power-dvd k (suc d) =
    subst (λ n. (2 ^ k) ∣ n)
      (sym (pow-succ' 2 (k + d))
        ∙ ap (λ (n : ℕ). 2 ^ n) (let e : suc (k + d) ≡ k + suc d = omega arith in e))
      (dvd-mul_left_of_dvd (2 ^ k) (power-dvd k d) 2)

pub power_small : (k : ℕ) → k ≤ 15 → (2 ^ k) ∣ (2 ^ 16)
power_small k h =
    subst (λ n. (2 ^ k) ∣ (2 ^ n)) (let e : k + (16 - k) ≡ 16 = omega arith in e)
      (power-dvd k (16 - k))

pub power_test : (k : ℕ) → bit_and (2 ^ k) (2 ^ k - 1) ≡ 0
power_test k = and_mask k (2 ^ k) ∙ mod_self (2 ^ k)
