-- ===== src/Pipe/Device.antt =====
-- The data of scull/pipe.h, and the sleeping of a process that waits for a pipe device.
use ldd3_workshop.Prelude.{
  ℕ, ◌+◌, ◌%◌, Bool, true, false, Option, List, leb, ◌==◌, if◌then◌else◌, add64, sub64,
}
use ldd3_workshop.Kernel.{Bytes, Ret}

-- A buffer from `kmalloc`: its size, and its bytes.
pub record Buffer : Type 0 where
  pub size : ℕ
  pub bytes : Bytes

-- `struct scull_pipe` without its wait queues, its lock and its cdev. `buf` is `none` for a NULL
-- pointer; `end`, `rp` and `wp` are pointers into the buffer, as offsets from its start. `async_q`
-- lists the files that want a signal.
pub record ScullPipe : Type 0 where
  pub idx : ℕ
  pub buf : Option Buffer
  pub end : ℕ
  pub buf_len : ℕ
  pub rp : ℕ
  pub wp : ℕ
  pub readers : ℕ
  pub writers : ℕ
  pub async_q : List ℕ

abbrev pub proper_fifo_beh_idx : ℕ
proper_fifo_beh_idx = 3

-- The parts of `struct file` that the handlers look at.
pub record File : Type 0 where
  pub id : ℕ
  pub mode_read : Bool
  pub mode_write : Bool
  pub nonblock : Bool

-- Whom a handler wakes up.
pub data Wake : Type 0 where
  inq outq openq sigio : Wake

-- What a handler works on: the device, whether this process holds its lock, user memory, and the
-- wake-ups sent so far, the last one first.
pub record Session : Type 0 where
  pub dev : ScullPipe
  pub holding : Bool
  pub user : Bytes
  pub wakes : List Wake

-- `__mutex_lock_sparse` and `__mutex_unlock_sparse` of scull/mutex_sparse.h, where the lock is free.
abbrev pub lock : Session → Session
lock s = record s { holding = true }

abbrev pub unlock : Session → Session
unlock s = record s { holding = false }

-- How a sleep ends: by a signal, by a signal while the lock is taken again, or with the lock taken,
-- on the device as the other processes left it.
pub data Wakeup : Type 0 where
  signal : Wakeup
  lock_signal : Wakeup
  resumed : ScullPipe → Wakeup

-- Where a loop that waits ends: ready with the lock held, with an early return, or still asleep.
pub data Waited : Type 0 where
  ready : Session → Waited
  leave : Ret → Session → Waited
  sleeping : Session → Waited

-- How a handler ends: it returns, it still sleeps, or it touches memory outside the buffer.
pub data Outcome : Type 0 where
  returned : Ret → Session → Outcome
  asleep : Session → Outcome
  oops : Outcome

-- `spacefree`: how much space is free?
unfoldable pub spacefree : ScullPipe → ℕ
spacefree dev =
    if dev.rp == dev.wp
    then sub64 dev.buf_len 1
    else sub64 (sub64 (add64 dev.rp dev.buf_len) dev.wp % dev.buf_len) 1

-- The `n` bytes from `off` on lie in the buffer.
abbrev pub in_buffer : Buffer → ℕ → ℕ → Bool
in_buffer b off n = leb (off + n) b.size
