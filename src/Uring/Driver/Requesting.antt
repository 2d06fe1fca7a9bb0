-- ===== src/Uring/Driver/Requesting.antt =====
-- The close of a descriptor that norn-uring/src/driver/mod.rs requests.
use faser.Prelude.{
  suc, ◌≡◌, ◌≤◌, ◌<◌, ◌⊎◌, inl, inr, refl, ap, ◌∙◌, append_assoc, true, false, ltb, [], ◌∷◌, ◌++◌,
  done, arith, Bool-cases,
}
use faser.Uring.Entry.{FdKind, Sqe}
use faser.Uring.Notify.Queue.{length, length-append}
use faser.Uring.Driver.{Driver, Answer, try_push_raw}
use faser.Uring.Driver.Requests.{close_fd, close_entry, try_push_raw_submit}

push_room :
    (e : Sqe) (d : Driver)
    → length d.sq < d.capacity
    → try_push_raw e d ≡ (true, record d { sq = d.sq ++ (e ∷ []) })
unfolding try_push_raw
push_room e d h = ground arith

push_full : (e : Sqe) (d : Driver) → d.capacity ≤ length d.sq → try_push_raw e d ≡ (false, d)
unfolding try_push_raw
push_full e d h = ground arith

abbrev queued : Sqe → Driver → Driver
queued e d = record d { sq = d.sq ++ (e ∷ []) }

-- The second push follows the first.
submit_lem :
    (e : Sqe) (a : Answer) (d : Driver)
    → length d.sq < d.capacity
    → try_push_raw_submit e a d ≡ done (try_push_raw e (queued e d))
unfolding try_push_raw_submit
submit_lem e a d h = rw (push_room e d h) refl

length-queued : (e : Sqe) (d : Driver) → length (queued e d).sq ≡ suc (length d.sq)
length-queued e d = omega (arith, length-append d.sq (e ∷ []))

-- If the submission queue has room, `close_fd` does not enter the kernel; with room for two
-- entries it queues the close of the descriptor twice and reports success, and with room for one
-- it queues it once and reports an error.
pub close_fd-Twice :
    (kind : FdKind) (a : Answer) (d : Driver)
    → length d.sq < d.capacity
    → (suc (length d.sq) < d.capacity)
        × (close_fd kind a d
            ≡ done (true, record d { sq = d.sq ++ (close_entry kind ∷ close_entry kind ∷ []) }))
      ⊎ (suc (length d.sq) ≡ d.capacity)
        × (close_fd kind a d ≡ done (false, record d { sq = d.sq ++ (close_entry kind ∷ []) }))
unfolding close_fd
close_fd-Twice kind a d h = elim (Bool-cases (ltb (suc (length d.sq)) d.capacity)) [
  | inl r ↦ inl (
    ground arith,
    submit_lem e a d h
        ∙ ap (λ p. done p) (push_room e (queued e d) (ground (arith, length-queued e d)))
        ∙ ap (λ es. done (true, record d { sq = es })) (append_assoc d.sq (e ∷ []) (e ∷ [])),
  )
  | inr r ↦ inr (
    ground arith,
    submit_lem e a d h
        ∙ ap (λ p. done p) (push_full e (queued e d) (ground (arith, length-queued e d))),
  )
]
  where
    e : Sqe
    e = close_entry kind
