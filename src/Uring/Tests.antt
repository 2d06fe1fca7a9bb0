-- ===== src/Uring/Tests.antt =====
-- Runs of the models of norn-uring, and the theorems at concrete states.
use faser.Prelude.{
  ℕ, ◌+◌, ◌-◌, ◌^◌, ◌≡◌, refl, Outcome, true, false, none, some, [], ◌∷◌, done, panic, Ensures, inr,
  arith, ltb, ◌==◌, if◌then◌else◌, ◌>>=◌,
}
use faser.Uring.Buf
use faser.Uring.Buf.{StableBuf, consume, stable_ptr, bytes_init}
use faser.Uring.Buf.Slices.{Rest, consume-Rest}
use faser.Uring.BufRing.{builder, build}
use faser.Uring.BufRing.Refusing.{after_refusal, build-Refused}
use faser.Uring.BufRing.Powers.{power_small}
use faser.Uring.BufRing.Build.{Built, build-Built}
use faser.Uring.BufRing.Recycling
use faser.Uring.BufRing.Recycling.{recycles, recycling-Inv}
use faser.Uring.Entry.{fd}
use faser.Uring.Fd.{NornFd, clone, starting, submitted, step, close, drop_inner}
use faser.Uring.Fd
use faser.Uring.Fd.Closing.{Awaited, After, close-Settles}
use faser.Uring.Net.{SockAddr, accepting, connecting, open_fd}
use faser.Uring.Net
use faser.Uring.Net.Owning.{owns, resources, completion-Owned}
use faser.Uring.Operation.{CqeResult, World, completes, drops, ok, err, item, Next}
use faser.Uring.Operation
use faser.Uring.Operation.Safety.{does-Inv}
use faser.Uring.Operation.Safety
use faser.Uring.Operation.Results.{seen, perform-seen}
use faser.Uring.Net.Sockets.{Kernel, lost, run, listener_bind, bind_then, open_socket_then}
use faser.Uring.Net.Sockets.Leaks.{Owned, listens, script, run-Owned}
use faser.Uring.Fs.{opening}
use faser.Uring.OpenOptions
use faser.Uring.OpenOptions.{OpenOptions, Constant, o_wronly, o_append, o_creat, o_excl}
use faser.Uring.OpenOptions.Opening.{append, create_new, bits, open_with_options, Opens, open-Opens}
use faser.Uring.Notify.{Notify, notify, perform, notifies, linked, fired, unregistered}
use faser.Uring.Notify.Firing.{Inv}
use faser.Uring.Notify.Safety.{uses-Inv, default-Inv}

-- Entries 0 and 1 wait, entry 2 has been notified.
abbrev queue : Notify
queue = record {
  waiters = 0 ∷ 1 ∷ [];
  count = 2;
  entries = λ i. record {
    state = if ltb i 2 then linked else if i == 2 then fired else unregistered;
    waker = if ltb i 2 then some i else none;
  };
  woken = [];
}

queue-Inv : Inv queue
queue-Inv = record { counted = refl; marked = λ i. ground arith; armed = λ i h. ground arith }

uses-Inv_example : Ensures Inv (perform (notifies 1) queue)
uses-Inv_example = uses-Inv (notifies 1) queue queue-Inv tt

abbrev first : CqeResult
first = record { result = ok 1; more = true }

abbrev second : CqeResult
second = record { result = ok 2; more = false }

-- Submitted, polled once, and with one completion.
abbrev begun : World
begun = record {
  op = record {
    refcount = 2;
    waker = some 4;
    completions = first ∷ [];
    complete = false;
    has_data = true;
  };
  freed = false;
  handle = true;
  kernel = true;
  woken = [];
  delivered = [];
  cleaned = [];
}

begun-Inv : Safety.Inv false begun
begun-Inv = record {
  counted = refl;
  memory = refl;
  finished = refl;
  data_there = λ h. refl;
  data_kept = λ h k. refl;
  taken = λ h. cc;
  still_open = λ h k. cc;
  final = λ h k d. cc;
}

-- A single-shot operation that waits.
abbrev awaited : World
awaited = record begun { op = record (begun.op) { completions = [] } }

awaited-Inv : Safety.Inv true awaited
awaited-Inv = record {
  counted = refl;
  memory = refl;
  finished = refl;
  data_there = λ h. refl;
  data_kept = λ h k. refl;
  taken = λ h. refl;
  still_open = λ h k. refl;
  final = λ h k d. cc;
}

does-Inv_example : Ensures (Safety.Inv true) (Operation.perform true (completes second) awaited)
does-Inv_example = does-Inv true (completes second) awaited awaited-Inv (refl, λ h. refl)

perform-seen_example :
    Ensures
      (λ w'. seen (λ c. c.more) w' ≡ seen (λ c. c.more) begun + 0)
      (Operation.perform false drops begun)
perform-seen_example = perform-seen (λ c. c.more) false drops begun begun-Inv refl

next_of : World → Outcome Next
unfolding Operation.poll_next Operation.pop Operation.pop_from
next_of w = Operation.poll_next 9 w >>= λ r. done r.0

both : World → Outcome World
unfolding Operation.complete Operation.push_completion Operation.drop_ref Operation.destroy
both w = Operation.complete second w

-- A `Multishot` with two completions yields the later one first.
newest_first : (both begun >>= next_of) ≡ done (item second)
unfolding both next_of
newest_first = refl

build-Built_example : Ensures (Built (builder 3)) (build none none (builder 3))
build-Built_example = build-Built none (builder 3)

-- Two buffers in a ring of two entries, the counters about to wrap; the application has buffer 0.
abbrev lent : Recycling.World
lent = record {
  r = record {
    bgid = 0;
    ring_entries_mask = 1;
    buf_cnt = 2;
    buf_len = 8;
    ring = λ i. i;
    local_tail = 0;
    shared_tail = 0;
  };
  head = 2 ^ 16 - 1;
  out = 0 ∷ [];
}

lent-Inv : Recycling.Inv lent
lent-Inv = record {
  k = 1;
  n = 1;
  mask = refl;
  small = power_small 1 (omega arith);
  fits = omega arith;
  head_u16 = omega arith;
  tail = refl;
  published = refl;
  together = refl;
  once = λ i. ground arith;
}

recycling-Inv_example : Ensures Recycling.Inv (Recycling.perform (recycles 0) lent)
recycling-Inv_example = recycling-Inv (recycles 0) lent lent-Inv (omega arith)

abbrev bytes : StableBuf
bytes = Buf.shared 100 8

consume-Rest_example :
    Ensures
      (Rest bytes (3 + 5) (stable_ptr (consume 5 (consume 3 (Buf.new bytes)))))
      (bytes_init (consume 5 (consume 3 (Buf.new bytes))))
consume-Rest_example = consume-Rest bytes 3 5 (omega arith)

-- Past the end, the address stays in the buffer, but the length cannot be computed.
past_end : bytes_init (consume 9 (Buf.new bytes)) ≡ panic
unfolding bytes_init consume Buf.new
past_end = refl

-- An accepted connection, and the result of a connect.
abbrev peer : SockAddr
peer = record { ptr = 4096; len = 128; is_ip = true }

abbrev answer : ℕ → Net.Completion
answer n = record { result = ok n; bid = none }

completion-Owned_example :
    Ensures
      (λ o. owns o ≡ resources (Net.configure (accepting false (fd 3) peer)) (answer 7))
      (Net.complete (accepting false (fd 3) peer) (answer 7))
    × (Net.cleanup (accepting false (fd 3) peer) (answer 7)
        ≡ done (resources (Net.configure (accepting false (fd 3) peer)) (answer 7)))
completion-Owned_example = completion-Owned (accepting false (fd 3) peer) (answer 7) refl (λ x. x)

-- A connect that nobody waits for closes the descriptor 0.
connect-closes : Net.cleanup (connecting (fd 3) peer) (answer 0) ≡ done (open_fd (fd 0) ∷ [])
unfolding Net.cleanup
connect-closes = refl

abbrev shared : NornFd
shared = clone (Fd.new (fd 3))

shared-Awaited : Awaited shared
unfolding clone Fd.new
shared-Awaited = record { inv = default-Inv; alive = omega arith; held = inr (omega arith) }

close-Settles_example : Ensures (After 0 none) (close 0 7 none starting shared)
unfolding clone Fd.new faser.Uring.Notify.default
close-Settles_example = close-Settles 0 7 none starting shared shared-Awaited refl

-- A future of `close` that is dropped after its submission: the drop of the last handle requests
-- the close again.
close-again : Ensures (λ r. (drop_inner r.2).requests ≡ 2) (step 0 7 none starting (Fd.new (fd 3)))
unfolding step drop_inner Fd.new
close-again = refl

-- A listener whose `bind` succeeds and whose `listen` fails.
abbrev busy : Kernel
busy = record {
  completes = λ n. answer 7;
  call = λ n. if n == 1 then ok 0 else err 98;
  abandons = λ n. false;
}

busy-lost :
    run busy 0 (script (listens peer 2 16))
    ≡ done (record {
      result = some (lost 98);
      made = open_fd (fd 7) ∷ [];
      dropped = open_fd (fd 7) ∷ [];
    })
unfolding run listener_bind bind_then open_socket_then Net.complete Net.configure
busy-lost = refl

run-Owned_example : Ensures Owned (run busy 0 (script (listens peer 2 16)))
run-Owned_example = run-Owned busy 0 (listens peer 2 16) tt

-- Append with the creation of a new file; each constant is a bit.
abbrev options : OpenOptions
options = append true (create_new true OpenOptions.new)

abbrev libc : Constant → ℕ
libc o_wronly = 1
libc o_append = 2
libc o_creat = 4
libc o_excl = 8
libc c = 0

options_requested : open_with_options libc (some 5) options ≡ some (opening 5 3 12)
unfolding open_with_options append create_new OpenOptions.new OpenOptions.get_access_mode
    OpenOptions.base_mode OpenOptions.get_creation_mode bits OpenOptions.refuses
    OpenOptions.creation_flags
options_requested = refl

open-Opens_example : Opens libc options (some 5) (open_with_options libc (some 5) options)
open-Opens_example = open-Opens libc (some 5) options

-- The group 3 exists already, and the kernel then unregisters the ring that has it.
build-Refused_example : build (some 17) none (builder 3) ≡ after_refusal 17 none 3
build-Refused_example = build-Refused 17 none (builder 3) (omega arith) (omega arith) (omega arith)
