-- ===== src/Uring.antt =====
-- norn-uring: what surrounds the calls of the kernel.
pub mod Notify
pub mod Operation
pub mod Unparker
pub mod Entry
pub mod Fd
pub mod Driver
pub mod Net
pub mod Fs
pub mod BufRing
pub mod OpenOptions
pub mod Buf
mod Tests
