-- ===== src/Uring/Fs/Holding.antt =====
-- Who owns the descriptors that the kernel opens for norn-uring/src/fs/file.rs, and what stays of a
-- buffer that is read into.
use faser.Prelude.{◌≡◌, refl, List, [], ◌∷◌}
use faser.Uring.Fs.{
  Request, opening, reading_at, writing_at, syncing, syncing_range, allocating, unlinking,
  making_dir, closing, configure, Output, descriptor, complete, cleanup,
}
use faser.Uring.Net.{Given, open_fd}
use faser.Uring.Net.Owning.{resources_of}
use faser.Uring.Operation.{IoResult, ok, err}
use faser.Prelude.{none}

-- What an output owns, and would give back when it is dropped.
abbrev pub owns : Output → List Given
owns (descriptor f) = open_fd f ∷ []
owns o = []

-- A completion of an operation on a file hands over the descriptor that the kernel made, if it
-- made one, or closes it when no future takes it.
pub request-Owned :
    (r : Request) (x : IoResult)
    → (owns (complete r x) ≡ resources_of (configure r) x none)
      × (cleanup r x ≡ resources_of (configure r) x none)
unfolding configure complete cleanup
request-Owned (opening p a c) (ok n) = (refl, refl)
request-Owned (opening p a c) (err e) = (refl, refl)
request-Owned (reading_at f b o) (ok n) = (refl, refl)
request-Owned (reading_at f b o) (err e) = (refl, refl)
request-Owned (writing_at f b o) (ok n) = (refl, refl)
request-Owned (writing_at f b o) (err e) = (refl, refl)
request-Owned (syncing f d) (ok n) = (refl, refl)
request-Owned (syncing f d) (err e) = (refl, refl)
request-Owned (syncing_range f o l g) (ok n) = (refl, refl)
request-Owned (syncing_range f o l g) (err e) = (refl, refl)
request-Owned (allocating f o l m) (ok n) = (refl, refl)
request-Owned (allocating f o l m) (err e) = (refl, refl)
request-Owned (unlinking p) (ok n) = (refl, refl)
request-Owned (unlinking p) (err e) = (refl, refl)
request-Owned (making_dir p m) (ok n) = (refl, refl)
request-Owned (making_dir p m) (err e) = (refl, refl)
request-Owned (closing f) (ok n) = (refl, refl)
request-Owned (closing f) (err e) = (refl, refl)
