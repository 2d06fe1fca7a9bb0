-- ===== src/Uring/Fs.antt =====
-- norn-uring/src/fs/file.rs and dir.rs: the operations on files and directories, as in Uring/Net. A
-- path is the address of its C string; `none` is one that has none, since it is not UTF-8 or has a
-- zero byte.
pub mod Holding
use Prim.Native.Nat.{bit_or}
use faser.Prelude.{ℕ, Bool, true, false, Option, none, some, List, [], ◌∷◌, ◌%◌, ◌^◌}
use faser.Uring.Buf.{StableBuf, StableBufMut, bytes_remaining, set_init}
use faser.Uring.Entry.{
  FdKind, fd, Slice, Opcode, read, write, open_at, unlink_at, mkdir_at, fsync, sync_file_range,
  fallocate, close, Sqe, build,
}
use faser.Uring.Net.{Given, open_fd, whole, rest, narrow}
use faser.Uring.Operation.{IoResult, ok, err}

pub data Request : Type 0 where
  opening : ℕ → ℕ → ℕ → Request
  reading_at : FdKind → StableBufMut → ℕ → Request
  writing_at : FdKind → StableBuf → ℕ → Request
  syncing : FdKind → Bool → Request
  syncing_range : FdKind → ℕ → ℕ → ℕ → Request
  allocating : FdKind → ℕ → ℕ → ℕ → Request
  unlinking : ℕ → Request
  making_dir : ℕ → ℕ → Request
  closing : FdKind → Request

abbrev pub o_cloexec : ℕ
o_cloexec = 524288

abbrev open_entry : ℕ → ℕ → ℕ → Sqe
open_entry path access creation = build (open_at path (bit_or (bit_or access creation) o_cloexec))

abbrev read_at_entry : FdKind → StableBufMut → ℕ → Sqe
read_at_entry f b offset = build (read f (narrow (rest b)) offset)

abbrev write_at_entry : FdKind → StableBuf → ℕ → Sqe
write_at_entry f b offset = build (write f (narrow (whole b)) offset)

abbrev sync_entry : FdKind → Bool → Sqe
sync_entry f datasync = build (fsync f datasync)

abbrev sync_range_entry : FdKind → ℕ → ℕ → ℕ → Sqe
sync_range_entry f offset len flags = build (sync_file_range f len offset flags)

abbrev fallocate_entry : FdKind → ℕ → ℕ → ℕ → Sqe
fallocate_entry f offset len mode = build (fallocate f len offset mode)

abbrev unlink_entry : ℕ → Sqe
unlink_entry path = build (unlink_at path)

abbrev mkdir_entry : ℕ → ℕ → Sqe
mkdir_entry path mode = build (mkdir_at path mode)

abbrev close_entry : FdKind → Sqe
close_entry f = build (close f)

-- `Operation::configure`.
unfoldable pub configure : Request → Sqe
configure (opening path access creation) = open_entry path access creation
configure (reading_at f b offset) = read_at_entry f b offset
configure (writing_at f b offset) = write_at_entry f b offset
configure (syncing f datasync) = sync_entry f datasync
configure (syncing_range f offset len flags) = sync_range_entry f offset len flags
configure (allocating f offset len mode) = fallocate_entry f offset len mode
configure (unlinking path) = unlink_entry path
configure (making_dir path mode) = mkdir_entry path mode
configure (closing f) = close_entry f

pub data Output : Type 0 where
  descriptor : FdKind → Output
  read_into : IoResult → StableBufMut → Output
  written : IoResult → StableBuf → Output
  finished : Output
  failed : ℕ → Output

abbrev opened : IoResult → Output
opened (ok n) = descriptor (fd n)
opened (err e) = failed e

abbrev read_output : IoResult → StableBufMut → Output
read_output (ok n) b = read_into (ok n) (set_init n b)
read_output (err e) b = read_into (err e) b

abbrev write_output : IoResult → StableBuf → Output
write_output (ok n) b = written (ok n) b
write_output (err e) b = written (err e) b

abbrev ended : IoResult → Output
ended (ok n) = finished
ended (err e) = failed e

-- `complete`.
unfoldable pub complete : Request → IoResult → Output
complete (opening path access creation) x = opened x
complete (reading_at f b offset) x = read_output x b
complete (writing_at f b offset) x = write_output x b
complete (syncing f datasync) x = ended x
complete (syncing_range f offset len flags) x = ended x
complete (allocating f offset len mode) x = ended x
complete (unlinking path) x = ended x
complete (making_dir path mode) x = ended x
complete (closing f) x = ended x

abbrev close_made : IoResult → List Given
close_made (ok n) = open_fd (fd n) ∷ []
close_made (err e) = []

-- `cleanup`.
unfoldable pub cleanup : Request → IoResult → List Given
cleanup (opening path access creation) x = close_made x
cleanup r x = []

-- `FALLOC_FL_KEEP_SIZE`, `FALLOC_FL_PUNCH_HOLE` and `FALLOC_FL_ZERO_RANGE`.
abbrev pub keep_size : ℕ
keep_size = 1

abbrev pub punch_hole : ℕ
punch_hole = 2

abbrev pub zero_range : ℕ
zero_range = 16

-- The methods of `File`, which submit a request and await it.
unfoldable pub read_at : FdKind → StableBufMut → ℕ → Request
read_at f b offset = reading_at f b offset

unfoldable pub write_at : FdKind → StableBuf → ℕ → Request
write_at f b offset = writing_at f b offset

unfoldable pub sync_range : FdKind → ℕ → ℕ → ℕ → Request
sync_range f offset len flags = syncing_range f offset len flags

unfoldable pub sync : FdKind → Request
sync f = syncing f false

unfoldable pub datasync : FdKind → Request
datasync f = syncing f true

unfoldable pub fallocate_with : FdKind → ℕ → ℕ → ℕ → Request
fallocate_with f offset len mode = allocating f offset len mode

unfoldable pub allocate : FdKind → ℕ → ℕ → Request
allocate f offset len = fallocate_with f offset len (bit_or zero_range keep_size)

unfoldable pub discard : FdKind → ℕ → ℕ → Request
discard f offset len = fallocate_with f offset len (bit_or punch_hole keep_size)

abbrev requested : Option ℕ → (ℕ → Request) → Option Request
requested none f = none
requested (some path) f = some (f path)

-- `remove_file`, `create_dir` and `remove_dir`; `none` is the error for the path.
unfoldable pub remove_file : Option ℕ → Option Request
remove_file path = requested path unlinking

unfoldable pub create_dir : Option ℕ → Option Request
create_dir path = requested path (λ p. making_dir p 511)

unfoldable pub remove_dir : Option ℕ → Option Request
remove_dir path = requested path unlinking
