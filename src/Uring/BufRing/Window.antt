-- ===== src/Uring/BufRing/Window.antt =====
-- The entries of the ring of norn-uring/src/bufring.rs that the kernel has not taken yet, as a queue.
-- Head and tail are 16-bit counters that run freely; the mask picks the entry.
use native.Mathlib.Decide.{dec_lt}
use native.Mathlib.Nat.{mod-mod_of_dvd, div-add-mod, mul-le-mul_left}
use Prim.Native.Nat.{bit_and, ◌∣◌}
use faser.Prelude.{
  ℕ, zero, suc, ◌+◌, ◌-◌, ◌/◌, ◌%◌, ◌^◌, ◌≤◌, ◌<◌, ◌≡◌, ◌≢◌, sym, ◌∙◌, ap, List, [], ◌∷◌, ◌++◌,
  arith,
}
use faser.Store.{update, update_self, update_other}
use faser.Uring.BufRing.Mask.{and_mask}

-- The `n` entries from `head` on.
abbrev pub window : (ℕ → ℕ) → ℕ → ℕ → ℕ → List ℕ
window ring mask head zero = []
window ring mask head (suc n) = ring (bit_and head mask) ∷ window ring mask ((head + 1) % 2 ^ 16) n

-- Two numbers with the same remainder are a multiple apart.
apart : (r a b : ℕ) → a < b → b < a + r → a % r ≢ b % r
apart r a b h k e = elim (dec_lt (a / r) (b / r)) [
  | yes p ↦ absurd (
      omega (
        arith,
        div-add-mod a r,
        div-add-mod b r,
        mul-le-mul_left r (let q : a / r + 1 ≤ b / r = omega arith in q),
      ))
  | no p ↦ absurd (
      omega (
        arith,
        div-add-mod a r,
        div-add-mod b r,
        mul-le-mul_left r (let q : b / r ≤ a / r = omega arith in q),
      ))
]

-- A ring of `2 ^ k` entries, with `k` at most 16.
module _ (k : ℕ) (small : (2 ^ k) ∣ (2 ^ 16)) where
  abbrev mask : ℕ
  mask = 2 ^ k - 1

  and_wrapped : (a : ℕ) → bit_and (a % 2 ^ 16) mask ≡ a % 2 ^ k
  and_wrapped a = and_mask k (a % 2 ^ 16) ∙ mod-mod_of_dvd (2 ^ k) a small

  other_entry :
      (head n : ℕ) → 0 < n → n < 2 ^ k → bit_and head mask ≢ bit_and ((head + n) % 2 ^ 16) mask
  other_entry head n p h e =
      apart (2 ^ k) head (head + n) (omega arith) (omega arith)
        (sym (and_mask k head) ∙ e ∙ and_wrapped (head + n))

  -- A push appends, while there is an entry to spare.
  pub window-push :
      (ring : ℕ → ℕ) (bid n head tail : ℕ)
      → tail ≡ (head + n) % 2 ^ 16
      → n < 2 ^ k
      → head < 2 ^ 16
      → window (update ring (bit_and tail mask) bid) mask head (suc n)
        ≡ window ring mask head n ++ (bid ∷ [])
  window-push ring bid zero head tail e h p =
      let here : tail ≡ head = omega (arith, e) in
      ap (λ (x : ℕ). x ∷ []) (rw here (update_self ring (bit_and head mask) bid))
  window-push ring bid (suc n) head tail e h p =
      let pushed = update ring (bit_and tail mask) bid in
      let other : bit_and head mask ≢ bit_and tail mask =
        rw e (other_entry head (suc n) (omega arith) h) in
      let rest =
        window-push ring bid n ((head + 1) % 2 ^ 16) tail (omega (arith, e)) (omega arith)
          (omega arith) in
      ap (λ (x : ℕ). x ∷ window pushed mask ((head + 1) % 2 ^ 16) (suc n))
        (update_other ring (bit_and tail mask) bid (bit_and head mask) other)
      ∙ ap (λ (xs : List ℕ). ring (bit_and head mask) ∷ xs) rest
