-- ===== src/Pipe/Fifo/Invariant.antt =====
-- What holds of the pipe device with the proper behaviour (scull/pipe.c) whatever is done to it.
use ldd3_workshop.Prelude.{
  ℕ, zero, suc, ◌+◌, ◌^◌, ◌≤◌, ◌<◌, ◌≡◌, true, false, some, List, [], ◌∷◌, arith, get_elem?, length,
}
use ldd3_workshop.Pipe.Device.{Buffer, proper_fifo_beh_idx, File}
use ldd3_workshop.Pipe.Open.{Kmalloc, no_writers}
use ldd3_workshop.Pipe.History.{IsFifo}
use ldd3_workshop.Pipe.Users.{removed, readers_in, writers_in, AllModes, counts-le}
use ldd3_workshop.Pipe.Fifo.{FifoUsers}

-- Memory is granted, as much as is asked for.
abbrev pub IsGenerous : Kmalloc → Type 0
IsGenerous kmalloc = (n : ℕ) → (b : Buffer) × (kmalloc n ≡ some b) × (b.size ≡ n)

abbrev pub AllReaders : List File → Type 0
AllReaders [] = Unit
AllReaders (f ∷ fs) = ((f.mode_read ≡ true) × (f.mode_write ≡ false)) × AllReaders fs

-- Each file that is open, waits to be open, or was lost by an interruption is counted. While a file is
-- open or a writer was lost, the buffer is there, and the device is the queue of what was written since
-- a writer last opened it.
pub record IsCounted (len n : ℕ) (u : FifoUsers) : Type 0 where
  pub proper : u.history.dev.idx ≡ proper_fifo_beh_idx
  pub readers :
      u.history.dev.readers ≡ readers_in u.files + (readers_in u.opening + readers_in u.lost)
  pub writers : u.history.dev.writers ≡ writers_in u.files + writers_in u.lost
  pub modes : AllModes u.files
  pub waiting_modes : AllReaders u.opening
  pub few : length u.files + (length u.opening + length u.lost) ≤ n
  pub room : (b : Buffer) → u.history.dev.buf ≡ some b → len ≤ b.size
  pub queue :
      0 < length u.files + writers_in u.lost → IsFifo u.history × (u.history.dev.buf_len ≡ len)

pub later-IsCounted : (len n : ℕ) (u : FifoUsers) → IsCounted len n u → IsCounted len (suc n) u
later-IsCounted len n u i = record {
  proper = i.proper;
  readers = i.readers;
  writers = i.writers;
  modes = i.modes;
  waiting_modes = i.waiting_modes;
  few = omega (arith, i.few);
  room = i.room;
  queue = i.queue;
}

pub removed-AllReaders :
    (i : ℕ) (fs : List File) (f : File)
    → get_elem? fs i ≡ some f
    → AllReaders fs
    → ((f.mode_read ≡ true) × (f.mode_write ≡ false)) × AllReaders (removed i fs)
unfolding removed
removed-AllReaders i [] f e m = cc
removed-AllReaders zero (g ∷ fs) f e (here, there) =
    let same : g ≡ f = cc in (rw (← same) here, there)
removed-AllReaders (suc i) (g ∷ fs) f e (here, there) =
    let (m, ms) = removed-AllReaders i fs f e there in (m, (here, ms))

-- Where the device counts a writer, the buffer is there.
pub writer_there :
    (len n : ℕ) (u : FifoUsers)
    → IsCounted len n u
    → no_writers u.history.dev ≡ false
    → 0 < length u.files + writers_in u.lost
writer_there len n u i somebody = ground (arith, i.writers, somebody, counts-le u.files)

pub counts-small :
    (len n : ℕ) (u : FifoUsers)
    → IsCounted len n u
    → n < 2 ^ 62
    → (u.history.dev.readers < 2 ^ 63) × (u.history.dev.writers < 2 ^ 63)
counts-small len n u i bound =
    let in_files = counts-le u.files in
    let in_opening = counts-le u.opening in
    let in_lost = counts-le u.lost in
    (
      omega (arith, i.readers, in_files, in_opening, in_lost, i.few),
      omega (arith, i.writers, in_files, in_lost, i.few),
    )
