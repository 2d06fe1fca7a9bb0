-- ===== src/Uring/Entry.antt =====
-- The entries of the submission queue: `FdKind` of norn-uring/src/fd.rs, and as data the calls of the
-- opcode builders that the operations of norn-uring make. Pointers and addresses are numbers, a set
-- of flags is a number or a list of names.
use faser.Prelude.{ℕ, Bool, false, Option, List}

pub data FdKind : Type 0 where
  fd fixed : ℕ → FdKind

pub record Slice : Type 0 where
  pub ptr : ℕ
  pub len : ℕ

-- A `msghdr`: the slices of `msg_iov`, and `msg_name` with its length.
pub record Msghdr : Type 0 where
  pub iov : List Slice
  pub name : Option Slice

pub data Opcode : Type 0 where
  nop : Opcode
  close : FdKind → Opcode
  async_cancel : ℕ → Opcode
  socket : ℕ → ℕ → ℕ → Opcode
  read write : FdKind → Slice → ℕ → Opcode
  recv send : FdKind → Slice → Opcode
  send_msg : FdKind → Msghdr → Opcode
  recv_msg : FdKind → Msghdr → Option ℕ → Opcode
  accept : FdKind → ℕ → ℕ → Opcode
  accept_multi : FdKind → Opcode
  connect : FdKind → Slice → Opcode
  shutdown : FdKind → ℕ → Opcode
  poll_add : FdKind → ℕ → Bool → Opcode
  open_at : ℕ → ℕ → Opcode
  unlink_at : ℕ → Opcode
  mkdir_at : ℕ → ℕ → Opcode
  fsync : FdKind → Bool → Opcode
  sync_file_range : FdKind → ℕ → ℕ → ℕ → Opcode
  fallocate : FdKind → ℕ → ℕ → ℕ → Opcode

pub record Sqe : Type 0 where
  pub opcode : Opcode
  pub io_drain : Bool
  pub skip_success : Bool
  pub buffer_select : Bool
  pub user_data : ℕ

-- `build`, before flags and the token are set.
abbrev pub build : Opcode → Sqe
build o = record {
  opcode = o;
  io_drain = false;
  skip_success = false;
  buffer_select = false;
  user_data = 0;
}
