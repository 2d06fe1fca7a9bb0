-- ===== src/Uring/BufRing/Build.antt =====
-- What `Builder::build` of norn-uring/src/bufring.rs makes of the settings.
use native.Mathlib.Nat.{one-le-pow}
use Prim.Native.Nat.{bit_and, max}
use faser.Prelude.{
  ℕ, zero, suc, ◌+◌, ◌-◌, ◌%◌, ◌^◌, ◌≤◌, ◌<◌, ◌≡◌, ◌⊎◌, inl, inr, refl, sym, ◌∙◌, ap, subst, true,
  ltb, ◌==◌, if◌then◌else◌, Option, none, Outcome, ◌>>=◌, [], ◌∷◌, ◌++◌, done, Ensures, Ensures-map,
  Ensures-weaken, count_if, ◌||◌, Bool-cases, arith,
}
use faser.Store.{update}
use faser.Uring.Notify.Queue.{occurrences, occurrences-append}
use faser.Uring.BufRing.{
  Builder, InnerBufRing, Result, ok, err, BuildError, exceeded, invalid_input, refused, withdrawn,
  new, register, settled, push_from, buf_ring_push, buf_ring_sync, balanced, build, registered,
}
use faser.Uring.BufRing.Powers.{next_power_of_two_lem, power_small, power_test}
use faser.Uring.BufRing.Window.{window, window-push}
use faser.Uring.BufRing.Recycling.{World, Inv}

-- A ring of `2 ^ k` entries, with nothing in it.
abbrev pub empty : ℕ → ℕ → ℕ → ℕ → InnerBufRing
empty bgid k buf_cnt buf_len = record {
  bgid = bgid;
  ring_entries_mask = 2 ^ k - 1;
  buf_cnt = buf_cnt;
  buf_len = buf_len;
  ring = λ i. 0;
  local_tail = 0;
  shared_tail = 0;
}

pub new_lem :
    (bgid k buf_cnt buf_len : ℕ)
    → buf_cnt ≤ 2 ^ k
    → new bgid (2 ^ k) buf_cnt buf_len ≡ (
        if (buf_cnt == 0) || (buf_len == 0)
        then err invalid_input
        else ok (empty bgid k buf_cnt buf_len))
unfolding new
new_lem bgid k buf_cnt buf_len h = ground (arith, power_test k)

-- The buffers below `bid` are in the ring.
record Filled (k bid : ℕ) (r : InnerBufRing) : Type 0 where
  mask : r.ring_entries_mask ≡ 2 ^ k - 1
  fits : r.buf_cnt ≤ 2 ^ k
  tail : r.local_tail ≡ bid % 2 ^ 16
  once : (i : ℕ) → occurrences i (window r.ring r.ring_entries_mask 0 bid) ≡ count_if (ltb i bid)

next_push :
    (k bid : ℕ) (r : InnerBufRing)
    → k ≤ 15
    → bid < r.buf_cnt
    → Filled k bid r
    → window
        (update r.ring (bit_and r.local_tail r.ring_entries_mask) bid)
        r.ring_entries_mask
        0
        (suc bid)
      ≡ window r.ring r.ring_entries_mask 0 bid ++ (bid ∷ [])
next_push k bid r s h v =
    subst
      (λ m.
        window (update r.ring (bit_and r.local_tail m) bid) m 0 (suc bid)
        ≡ window r.ring m 0 bid ++ (bid ∷ []))
      (sym v.mask)
      (window-push k (power_small k s) r.ring bid bid 0 r.local_tail (omega (arith, v.tail))
        (omega (arith, v.fits)) (omega arith))

push_from_lem :
    (k n bid : ℕ) (r : InnerBufRing)
    → k ≤ 15
    → bid + n ≡ r.buf_cnt
    → Filled k bid r
    → Ensures
        (λ r'. Filled k r'.buf_cnt r' × (r'.buf_cnt ≡ r.buf_cnt) × (r'.buf_len ≡ r.buf_len))
        (push_from n bid r)
unfolding push_from buf_ring_push
push_from_lem k zero bid r s e v =
    (subst (λ b. Filled k b r) (let d : bid ≡ r.buf_cnt = omega arith in d) v, refl, refl)
push_from_lem k (suc n) bid r s e v =
    let room : ltb bid r.buf_cnt ≡ true = ground arith in
    rw room (
      push_from_lem k n (suc bid)
        (record r {
          ring = update r.ring (bit_and r.local_tail r.ring_entries_mask) bid;
          local_tail = (r.local_tail + 1) % 2 ^ 16;
        })
        s (omega arith)
        (record {
          mask = v.mask;
          fits = v.fits;
          tail = omega (arith, v.tail);
          once = λ i.
              ap (occurrences i) (next_push k bid r s (omega arith) v)
              ∙ ground (
                arith,
                occurrences-append i (window r.ring r.ring_entries_mask 0 bid) (bid ∷ []),
                v.once i,
              );
        }))

-- The kernel has every buffer of the ring, and the application none.
abbrev pub started : InnerBufRing → World
started r = record { r = r; head = 0; out = [] }

Filled-Inv :
    (k : ℕ) (r : InnerBufRing) → k ≤ 15 → Filled k r.buf_cnt r → Inv (started (buf_ring_sync r))
unfolding buf_ring_sync
Filled-Inv k r s v = record {
  k = k;
  n = r.buf_cnt;
  mask = v.mask;
  small = power_small k s;
  fits = v.fits;
  head_u16 = omega arith;
  tail = omega (arith, v.tail);
  published = refl;
  together = omega arith;
  once = λ i. omega (arith, v.once i);
}

-- What `build` may answer if the kernel registers the ring.
abbrev pub Built : Builder → Result → Type 0
Built b (ok r) =
    Inv (started r)
    × (r.buf_cnt ≡ (if b.buf_cnt == 0 then b.ring_entries else b.buf_cnt))
    × (r.buf_len ≡ b.buf_len)
    × (b.ring_entries ≤ suc (r.ring_entries_mask))
Built b (err exceeded) = 2 ^ 15 < max b.ring_entries b.buf_cnt
Built b (err invalid_input) = (max b.ring_entries b.buf_cnt ≡ 0) ⊎ (b.buf_len ≡ 0)
Built b (err (refused e)) = ⊥
Built b (err (withdrawn e g)) = ⊥

pub balanced_entries : (b : Builder) → (balanced b).ring_entries ≡ max b.ring_entries b.buf_cnt
unfolding balanced
balanced_entries b = ground arith

pub balanced_cnt :
    (b : Builder) → (balanced b).buf_cnt ≡ (if b.buf_cnt == 0 then b.ring_entries else b.buf_cnt)
unfolding balanced
balanced_cnt b = ground arith

pub balanced_len : (b : Builder) → (balanced b).buf_len ≡ b.buf_len
unfolding balanced
balanced_len b = ground arith

abbrev Registered : ℕ → ℕ → ℕ → Result → Type 0
Registered k cnt len (ok r) =
    Inv (started r) × (r.buf_cnt ≡ cnt) × (r.buf_len ≡ len) × (r.ring_entries_mask ≡ 2 ^ k - 1)
Registered k cnt len (err e) = ⊥

register_lem :
    (bgid k cnt len : ℕ)
    → k ≤ 15
    → cnt ≤ 2 ^ k
    → Ensures (Registered k cnt len) (register none (empty bgid k cnt len))
unfolding register buf_ring_sync
register_lem bgid k cnt len s h =
    Ensures-map (λ r. Filled k r.buf_cnt r × (r.buf_cnt ≡ cnt) × (r.buf_len ≡ len))
      (Registered k cnt len) (λ r. done (ok (buf_ring_sync r)))
      (push_from cnt 0 (empty bgid k cnt len)) (λ r (f, c, l). (Filled-Inv k r s f, c, l, f.mask))
      (push_from_lem k cnt 0 (empty bgid k cnt len) s (omega arith)
        (record { mask = refl; fits = h; tail = refl; once = λ i. ground arith }))

settled_lem :
    (u : Option ℕ) (q : InnerBufRing) (P : Result → Type 0) (m : Outcome Result)
    → ((e : BuildError) → ¬ P (err e))
    → Ensures P m
    → Ensures P (m >>= settled u q)
settled_lem u q P m n h = Ensures-map P P (settled u q) m (λ r p. by_result r p) h
  where
    by_result : (r : Result) → P r → Ensures P (settled u q r)
    by_result (ok r) p = p
    by_result (err e) p = absurd (n e p)

-- The rest of `build`, once the counts are balanced and small enough.
module _ (b : Builder) (k : ℕ) where
  abbrev cnt : ℕ
  cnt = if b.buf_cnt == 0 then b.ring_entries else b.buf_cnt

  Registered-Built :
      b.ring_entries ≤ 2 ^ k → (r : Result) → Registered k cnt b.buf_len r → Built b r
  Registered-Built h (ok r) (v, c, l, m) =
      (v, c, l, omega (arith, m, h, one-le-pow k 2 (omega arith)))
  Registered-Built h (err e) p = absurd p

  new-Built :
      (u : Option ℕ) (bgid : ℕ)
      → k ≤ 15
      → max b.ring_entries b.buf_cnt ≤ 2 ^ k
      → Ensures (Built b) (registered none u (new bgid (2 ^ k) cnt b.buf_len))
  new-Built u bgid s h =
      rw (new_lem bgid k cnt b.buf_len (ground arith))
        (elim (Bool-cases ((cnt == 0) || (b.buf_len == 0))) [
          | inl e ↦ rw e (invalid e)
          | inr e ↦ rw e (
              Ensures-weaken (Registered k cnt b.buf_len) (Built b)
                (register none (empty bgid k cnt b.buf_len)
                  >>= settled u (empty bgid k cnt b.buf_len))
                (λ r p. Registered-Built (omega arith) r p)
                (settled_lem u (empty bgid k cnt b.buf_len) (Registered k cnt b.buf_len)
                  (register none (empty bgid k cnt b.buf_len)) (λ e p. p)
                  (register_lem bgid k cnt b.buf_len s (ground arith))))
        ])
    where
      invalid :
          ((cnt == 0) || (b.buf_len == 0)) ≡ true
          → (max b.ring_entries b.buf_cnt ≡ 0) ⊎ (b.buf_len ≡ 0)
      invalid e = ground arith

-- If the kernel registers the ring, `build` ends without a panic and answers one of three: a ring
-- in which the kernel has every buffer once, with the number of buffers and their length as set
-- (or as many buffers as entries were asked for, if none were set) and at least the entries asked
-- for; the error `exceeded`, only if the larger of the two counts is above 32768; or
-- `invalid_input`, only if both counts or the length are zero.
pub build-Built : (u : Option ℕ) (b : Builder) → Ensures (Built b) (build none u b)
unfolding build
build-Built u b = elim (Bool-cases (ltb (2 ^ 15) (balanced b).ring_entries)) [
  | inl e ↦ rw e (ground (arith, e, balanced_entries b))
  | inr e ↦
      let few : (balanced b).ring_entries ≤ 2 ^ 15 = ground (arith, e) in
      let (k, s, p, h) = next_power_of_two_lem (balanced b).ring_entries few in
      rw (e, p, balanced_cnt b, balanced_len b)
        (new-Built b k u (balanced b).bgid s (omega (arith, balanced_entries b)))
]
