-- ===== src/Timer/Runtime/Starting.antt =====
-- The first poll of a `Sleep` of norn-timer/src/entry.rs.
use mathlib.Core.Path.{fun_ext}
use faser.Prelude.{
  ℕ, ◌+◌, ◌/◌, ◌^◌, ◌<◌, ◌≡◌, inl, inr, refl, sym, ◌∙◌, ap, subst, true, false, ltb, leb, ◌==◌, [],
  ◌∷◌, done, arith, count_if, Ensures, Bool-cases,
}
use faser.Timer.Bits.{update, update_self, update_other}
use faser.Timer.Level.{Entry, Level}
use faser.Timer.Wheels.{Wheels, Completion, ok, shutdown_error, add, insert, fire}
use faser.Timer.Wheels.Sums.{total}
use faser.Timer.Wheels.Settling.{Fits}
use faser.Timer.Wheels.Inserting.{Inserted, insert-Inserted}
use faser.Timer.Sleep.{
  SleepState, Sleep, unregistered, registered, fired, is_registered, settled, set_registered,
}
use faser.Timer.Sleep
use faser.Timer.Runtime.{Timers, begin, deliver, fire_each, expiration}
use faser.Timer.Runtime.Delivery.{of_id}
use faser.Timer.Runtime.Finding.{stale}
use faser.Timer.Runtime.Holding.{update-Holds, total-stale}
use faser.Timer.Runtime.Owning.{InOrder}
use faser.Timer.Runtime.Leaving.{Apart, of_other, stale_other, of_self}

abbrev pub millis : ℕ → Timers → ℕ
millis i t = t.duration i / 10 ^ 6

-- How a sleep starts: at once fired if its duration is no millisecond, or for the error if the wheel is
-- shut down, else registered for its deadline.
pub data Started (i : ℕ) (t : Timers) (s : Sleep) : Type 0 where
  at_once : millis i t ≡ 0 → s.state ≡ fired → s.complete ≡ ok → Started i t s
  refused :
      t.wheels.is_shutdown ≡ true → s.state ≡ fired → s.complete ≡ shutdown_error → Started i t s
  waiting :
      0 < millis i t
      → t.wheels.is_shutdown ≡ false
      → s.state ≡ registered
      → s.deadline ≡ t.wheels.elapsed + millis i t
      → Started i t s

-- The sleep is started, nothing else has changed.
pub record Begun (i : ℕ) (t t' : Timers) : Type 0 where
  pub apart : Apart i t t'
  pub started : Started i t (t'.sleeps i)

insert_refused :
    (e : Entry) (w : Wheels) → w.is_shutdown ≡ true → insert e w ≡ fire shutdown_error e w
unfolding insert
insert_refused e w a = ground arith

insert_late :
    (e : Entry) (w : Wheels)
    → w.is_shutdown ≡ false
    → leb e.deadline w.elapsed ≡ true
    → insert e w ≡ fire ok e w
unfolding insert
insert_late e w a b = ground arith

module _ (i : ℕ) (t : Timers) (v : InOrder t) (u : (t.sleeps i).state ≡ unregistered) where
  abbrev ws : ℕ → Level
  ws = t.wheels.wheels

  none_held : total (of_id i) ws ≡ 0
  none_held = v.holds.held i ∙ ap (λ s. count_if (is_registered s)) u

  -- The wheel as it was, with the sleep changed to one that is not registered.
  abbrev with_sleep : Sleep → Timers
  with_sleep s = record t { sleeps = update t.sleeps i s }

  unheld-InOrder : (s : Sleep) → is_registered s.state ≡ false → InOrder (with_sleep s)
  unheld-InOrder s e = record {
    sound = v.sound;
    holds =
        update-Holds i s ws ws t.sleeps v.holds (λ j h. refl) (λ j h. refl)
          (none_held ∙ sym (ap count_if e)) (omega (arith, total-stale i s.deadline ws, none_held));
    delivered = v.delivered;
    stopped = v.stopped;
    in_time = v.in_time;
    near = v.near;
  }

  in_range : ltb (expiration i t) (2 ^ 64) ≡ true
  in_range = ground (arith, v.in_time, v.near i)

  exact : expiration i t ≡ t.wheels.elapsed + millis i t
  exact = omega (arith, v.near i)

  -- The sleep starts as it is told, and nothing else has changed.
  with-Begun : (s : Sleep) → Started i t s → Begun i t (with_sleep s)
  with-Begun s b = record {
    apart = record {
      elapsed = refl;
      same = refl;
      duration = refl;
      others = λ j h. update_other t.sleeps i s j h;
    };
    started = subst (Started i t) (sym (update_self t.sleeps i s)) b;
  }

  -- The firing of the sleep that the wheel hands back at once.
  deliver-fire :
      (c : Completion) (d : ℕ) (s : Sleep)
      → deliver (fire c (record { id = i; deadline = d }) t.wheels) (with_sleep s)
        ≡ with_sleep (Sleep.fire c s)
  unfolding deliver fire fire_each
  deliver-fire c d s =
      rw v.delivered
        (ap (λ f. record t { wheels = record (t.wheels) { firings = [] }; sleeps = f }) again)
    where
      again :
          update (update t.sleeps i s) i (Sleep.fire c (update t.sleeps i s i))
          ≡ update t.sleeps i (Sleep.fire c s)
      again = rw (update_self t.sleeps i s) (fun_ext (λ j. ground arith))

  fired_at_once :
      (c : Completion) (d : ℕ) (s : Sleep)
      → Started i t (Sleep.fire c s)
      → Ensures
          (λ t'. Begun i t t' × InOrder t')
          (done (deliver (fire c (record { id = i; deadline = d }) t.wheels) (with_sleep s)))
  unfolding Sleep.fire
  fired_at_once c d s b =
      rw (deliver-fire c d s) (with-Begun (Sleep.fire c s) b, unheld-InOrder (Sleep.fire c s) refl)

  begin_zero : (t.duration i == 0) ≡ true → Ensures (λ t'. Begun i t t' × InOrder t') (begin i t)
  unfolding begin add Sleep.fire
  begin_zero e =
      rw e (fired_at_once ok t.wheels.elapsed (t.sleeps i) (at_once (ground arith) refl refl))

  -- The sleep once it is registered, and its entry.
  abbrev set : Sleep
  set = record (t.sleeps i) { state = registered; deadline = expiration i t }

  abbrev entry : Entry
  entry = record { id = i; deadline = expiration i t }

  set_lem : set_registered (expiration i t) (t.sleeps i) ≡ done set
  unfolding set_registered
  set_lem = rw u refl

  inserted-InOrder :
      Inserted (entry ∷ []) t.wheels (insert entry t.wheels)
      → t.wheels.is_shutdown ≡ false
      → InOrder (record t { wheels = insert entry t.wheels; sleeps = update t.sleeps i set })
  inserted-InOrder n a = record {
    sound = n.sound;
    holds =
        update-Holds i set ws (insert entry t.wheels).wheels t.sleeps v.holds
          (λ j h. omega (arith, n.holds (of_id j), of_other i j (expiration i t) h))
          (λ j h. omega (
            arith,
            n.holds (stale j (t.sleeps j).deadline),
            stale_other i j (expiration i t) (t.sleeps j).deadline h,
          ))
          (omega (arith, n.holds (of_id i), of_self i (expiration i t), none_held))
          (omega (
            arith,
            n.holds (stale i (expiration i t)),
            not_stale,
            total-stale i (expiration i t) ws,
            none_held,
          ));
    delivered = n.firings ∙ v.delivered;
    stopped = λ d. absurd (cc (n.alive));
    in_time = omega (arith, n.elapsed, v.in_time);
    near = v.near;
  }
    where
      not_stale : count_if (stale i (expiration i t) entry) ≡ 0
      not_stale = ground arith

  deliver-insert :
      Inserted (entry ∷ []) t.wheels (insert entry t.wheels)
      → deliver (insert entry t.wheels) (with_sleep set)
        ≡ record t { wheels = insert entry t.wheels; sleeps = update t.sleeps i set }
  unfolding deliver fire_each
  deliver-insert n = rw (n.firings ∙ v.delivered) refl

  -- The wheel has taken the entry.
  taken :
      0 < millis i t
      → t.wheels.is_shutdown ≡ false
      → Ensures
          (λ t'. Begun i t t' × InOrder t')
          (done (deliver (insert entry t.wheels) (with_sleep set)))
  taken m a =
      let fits : Fits t.wheels.elapsed entry = record {
        later = omega (arith, exact);
        near = omega (arith, exact, v.near i);
      } in
      let n = insert-Inserted entry t.wheels a fits v.sound in
      rw (deliver-insert n) (
        record {
          apart = record {
            elapsed = n.elapsed;
            same = n.alive;
            duration = refl;
            others = λ j h. update_other t.sleeps i set j h;
          };
          started = subst (Started i t) (sym (update_self t.sleeps i set)) (waiting m a refl exact);
        },
        inserted-InOrder n a,
      )

  -- The entry goes to the wheel.
  given :
      Ensures
        (λ t'. Begun i t t' × InOrder t')
        (done (deliver (insert entry t.wheels) (with_sleep set)))
  unfolding Sleep.fire
  given = elim (Bool-cases t.wheels.is_shutdown) [
    | inl a ↦
        rw (insert_refused entry t.wheels a)
          (fired_at_once shutdown_error (expiration i t) set (refused a refl refl))
    | inr a ↦ elim (Bool-cases (leb (expiration i t) t.wheels.elapsed)) [
      | inl b ↦
          rw (insert_late entry t.wheels a b)
            (fired_at_once ok (expiration i t) set (at_once (ground (arith, exact)) refl refl))
      | inr b ↦ taken (ground (arith, exact)) a
    ]
  ]

  begin_later : (t.duration i == 0) ≡ false → Ensures (λ t'. Begun i t t' × InOrder t') (begin i t)
  unfolding begin add
  begin_later e = rw (e, in_range, set_lem) given

  -- A new sleep starts as it is told, and leaves the timers in order.
  pub begin-Begun : Ensures (λ t'. Begun i t t' × InOrder t') (begin i t)
  begin-Begun = elim (Bool-cases (t.duration i == 0)) [
    | inl e ↦ begin_zero e
    | inr e ↦ begin_later e
  ]
