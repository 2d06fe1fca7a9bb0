-- ===== src/Uring/BufRing/Recycling.antt =====
-- How the buffers of norn-uring/src/bufring.rs go around: the kernel takes the entries from the head in
-- their order, as the interface of the buffer ring documents, and the code puts a buffer back when
-- its `BufRingBuf` is dropped.
use native.Mathlib.Decide.{ℕ_discrete}
use Prim.Native.Nat.{bit_and, ◌∣◌}
use faser.Prelude.{
  ℕ, zero, suc, ◌+◌, ◌-◌, ◌%◌, ◌^◌, ◌≤◌, ◌<◌, ◌≡◌, ◌≢◌, refl, sym, ◌∙◌, ap, subst, true, ltb, List,
  [], ◌∷◌, ◌++◌, Outcome, done, ◌>>=◌, Ensures, count_if, arith,
}
use faser.Store.{update}
use faser.Uring.Notify.{unlink}
use faser.Uring.Notify.Queue.{
  length, occurrences, occurrences-append, unlink_self, unlink_other, length-unlink,
}
use faser.Uring.BufRing.{InnerBufRing, dropping_bid, buf_ring_push, buf_ring_sync}
use faser.Uring.BufRing.Window.{window, window-push}

-- The ring, the counter of the kernel, and the buffers that the application has.
pub record World : Type 0 where
  pub r : InnerBufRing
  pub head : ℕ
  pub out : List ℕ

pub data Action : Type 0 where
  selects : Action
  recycles : ℕ → Action

-- `get_buf` makes a `BufRingBuf` of the buffer that the kernel has selected.
unfoldable pub perform : Action → World → Outcome World
perform selects w = done (record w {
  head = (w.head + 1) % 2 ^ 16;
  out = w.r.ring (bit_and w.head w.r.ring_entries_mask) ∷ w.out;
})
perform (recycles bid) w =
    dropping_bid bid w.r >>= λ r. done (record w { r = r; out = unlink bid w.out })

-- The kernel selects only what has been published, and a buffer is dropped by its owner.
abbrev pub Permitted : Action → World → Type 0
Permitted selects w = w.head ≢ w.r.shared_tail
Permitted (recycles bid) w = 0 < occurrences bid w.out

-- The entries that the kernel can still take.
abbrev pub available : ℕ → World → List ℕ
available n w = window w.r.ring w.r.ring_entries_mask w.head n

-- Every buffer is in one place: with the kernel or with the application.
pub record Inv (w : World) : Type 0 where
  pub k : ℕ
  pub n : ℕ
  pub mask : w.r.ring_entries_mask ≡ 2 ^ k - 1
  pub small : (2 ^ k) ∣ (2 ^ 16)
  pub fits : w.r.buf_cnt ≤ 2 ^ k
  pub head_u16 : w.head < 2 ^ 16
  pub tail : w.r.local_tail ≡ (w.head + n) % 2 ^ 16
  pub published : w.r.shared_tail ≡ w.r.local_tail
  pub together : n + length w.out ≡ w.r.buf_cnt
  pub once :
      (i : ℕ) → occurrences i (available n w) + occurrences i w.out ≡ count_if (ltb i w.r.buf_cnt)

length_pos : (i : ℕ) (xs : List ℕ) → 0 < occurrences i xs → 0 < length xs
length_pos i [] h = absurd (omega arith)
length_pos i (x ∷ xs) h = omega arith

selects-Inv :
    (w : World) (n : ℕ) (v : Inv w)
    → v.n ≡ n
    → w.head ≢ w.r.shared_tail
    → Ensures Inv (perform selects w)
unfolding perform
selects-Inv w zero v e h = absurd (h (omega (arith, v.tail, v.published, v.head_u16)))
selects-Inv w (suc n) v e h = record {
  k = v.k;
  n = n;
  mask = v.mask;
  small = v.small;
  fits = v.fits;
  head_u16 = omega arith;
  tail = omega (arith, v.tail);
  published = v.published;
  together = omega (arith, v.together);
  once = λ i.
      let before =
        subst
          (λ m. occurrences i (available m w) + occurrences i w.out ≡ count_if (ltb i w.r.buf_cnt))
          e (v.once i) in
      omega (arith, before);
}

-- Where the buffer goes that is put back.
pub put_back :
    (w : World) (bid : ℕ) (v : Inv w)
    → 0 < occurrences bid w.out
    → window
        (update w.r.ring (bit_and w.r.local_tail w.r.ring_entries_mask) bid)
        w.r.ring_entries_mask
        w.head
        (suc v.n)
      ≡ available v.n w ++ (bid ∷ [])
put_back w bid v h =
    subst
      (λ m.
        window (update w.r.ring (bit_and w.r.local_tail m) bid) m w.head (suc v.n)
        ≡ window w.r.ring m w.head v.n ++ (bid ∷ []))
      (sym v.mask)
      (window-push v.k v.small w.r.ring bid v.n w.head w.r.local_tail v.tail
        (omega (arith, v.together, v.fits, length_pos bid w.out h)) v.head_u16)

pub owned : (w : World) (bid : ℕ) → Inv w → 0 < occurrences bid w.out → ltb bid w.r.buf_cnt ≡ true
owned w bid v h = ground (arith, v.once bid)

recycles-Inv :
    (w : World) (bid : ℕ)
    → Inv w
    → 0 < occurrences bid w.out
    → Ensures Inv (perform (recycles bid) w)
unfolding perform dropping_bid buf_ring_push buf_ring_sync
recycles-Inv w bid v h = rw (owned w bid v h) (record {
  k = v.k;
  n = suc v.n;
  mask = v.mask;
  small = v.small;
  fits = v.fits;
  head_u16 = v.head_u16;
  tail = omega (arith, v.tail);
  published = refl;
  together = omega (arith, v.together, length-unlink bid w.out h);
  once = λ i.
      ap (λ xs. occurrences i xs + occurrences i (unlink bid w.out)) (put_back w bid v h)
      ∙ (elim (ℕ_discrete i bid) [
        | yes p ↦ rw p (
            ground (
              arith,
              v.once bid,
              occurrences-append bid (available v.n w) (bid ∷ []),
              unlink_self bid w.out,
            ))
        | no p ↦ ground (
          arith,
          v.once i,
          occurrences-append i (available v.n w) (bid ∷ []),
          unlink_other bid i w.out p,
        )
      ]);
})

-- While the kernel selects published buffers in order and the application drops the buffers that
-- it has, every buffer is in exactly one place, with the kernel or with the application, no entry
-- is overwritten that the kernel has not taken, although the 16-bit counters wrap, and what is in
-- the ring is published.
pub recycling-Inv : (a : Action) (w : World) → Inv w → Permitted a w → Ensures Inv (perform a w)
recycling-Inv selects w v p = selects-Inv w v.n v refl p
recycling-Inv (recycles bid) w v p = recycles-Inv w bid v p
