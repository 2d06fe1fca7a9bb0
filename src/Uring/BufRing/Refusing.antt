-- ===== src/Uring/BufRing/Refusing.antt =====
-- `Builder::build` of norn-uring/src/bufring.rs, if the kernel does not register the ring.
use Prim.Native.Nat.{max}
use faser.Prelude.{
  ℕ, ◌^◌, ◌≤◌, ◌<◌, ◌≡◌, refl, false, ltb, ◌==◌, ◌||◌, if◌then◌else◌, Option, none, some, Outcome,
  done, panic, arith,
}
use faser.Uring.BufRing.{
  Builder, Result, ok, err, withdrawn, register, drop, balanced, build, registered,
}
use faser.Uring.BufRing.Powers.{next_power_of_two_lem}
use faser.Uring.BufRing.Build.{empty, new_lem, balanced_entries, balanced_cnt, balanced_len}

-- The group `g` is unregistered, though it was not registered.
abbrev pub after_refusal : ℕ → Option ℕ → ℕ → Outcome Result
after_refusal e none g = done (err (withdrawn e g))
after_refusal e (some x) g = panic

refused_by :
    (e : ℕ) (u : Option ℕ) (bgid k cnt len : ℕ)
    → registered (some e) u (ok (empty bgid k cnt len)) ≡ after_refusal e u bgid
unfolding register drop
refused_by e none bgid k cnt len = refl
refused_by e (some x) bgid k cnt len = refl

balanced_bgid : (b : Builder) → (balanced b).bgid ≡ b.bgid
unfolding balanced
balanced_bgid b = ground arith

-- If the kernel does not register the ring of a builder whose larger count is positive and at most
-- 32768 and whose buffers are not empty, `build` drops the ring, which asks the kernel to
-- unregister the group of that number: if the kernel does so (it has another ring with this
-- number), `build` returns the error of the registration, and otherwise it panics.
pub build-Refused :
    (e : ℕ) (u : Option ℕ) (b : Builder)
    → 0 < max b.ring_entries b.buf_cnt
    → max b.ring_entries b.buf_cnt ≤ 2 ^ 15
    → 0 < b.buf_len
    → build (some e) u b ≡ after_refusal e u b.bgid
unfolding build
build-Refused e u b p h l =
    let few : (balanced b).ring_entries ≤ 2 ^ 15 = omega (arith, balanced_entries b) in
    let small : ltb (2 ^ 15) (balanced b).ring_entries ≡ false = ground arith in
    let (k, s, q, t) = next_power_of_two_lem (balanced b).ring_entries few in
    let cnt : ℕ = if b.buf_cnt == 0 then b.ring_entries else b.buf_cnt in
    let valid : ((cnt == 0) || (b.buf_len == 0)) ≡ false = ground arith in
    rw
      (
        small,
        q,
        balanced_cnt b,
        balanced_len b,
        balanced_bgid b,
        new_lem b.bgid k cnt b.buf_len (ground (arith, balanced_entries b)),
        valid,
      )
      (refused_by e u b.bgid k cnt b.buf_len)
