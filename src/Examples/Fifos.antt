-- ===== src/Examples/Fifos.antt =====
-- Processes at the pipe device with the proper behaviour (scull/pipe.c), with a buffer of eight bytes.
use ldd3_workshop.Prelude.{◌≡◌, inl, inr, refl, true, false, none, List, [], ◌∷◌, arith}
use ldd3_workshop.Kernel.{ok, err, enomem}
use ldd3_workshop.Pipe.Device.{ScullPipe, proper_fifo_beh_idx, File, Session, returned, oops}
use ldd3_workshop.Pipe.Io.{scull_p_read}
use ldd3_workshop.Pipe.Open.{scull_p_open}
use ldd3_workshop.Pipe.Users.{readers_in, writers_in}
use ldd3_workshop.Pipe.Fifo.{FifoUsers, FifoEvent, opens, goes_on, releases, reads, writes, events}
use ldd3_workshop.Pipe.Fifo.Invariant.{IsCounted}
use ldd3_workshop.Pipe.Fifo.Runs.{events-IsCounted}
use ldd3_workshop.Pipe.Shortage.{failed_open_faults}
use ldd3_workshop.Examples.Base.{small_kernel, small_kernel-IsLinux, user_bytes}
use ldd3_workshop.Examples.Pipes.{ring, kmalloc, file, closed, session}

abbrev closed_fifo : ScullPipe
closed_fifo = record closed { idx = proper_fifo_beh_idx }

abbrev nobody : FifoUsers
nobody = record {
  history = record { dev = closed_fifo; sent = []; received = [] };
  files = [];
  opening = [];
  lost = [];
}

nobody-IsCounted : IsCounted 8 0 nobody
unfolding readers_in writers_in
nobody-IsCounted = record {
  proper = refl;
  readers = refl;
  writers = refl;
  modes = tt;
  waiting_modes = tt;
  few = omega arith;
  room = λ b e. cc;
  queue = λ used. absurd (omega arith);
}

abbrev reader : File
reader = record file { id = 2; mode_write = false }

abbrev writer : File
writer = record file { mode_read = false }

-- A reader waits for a writer, two writers come, the reader goes on, bytes go to it, and the files are
-- closed, one of them with an interrupted release.
abbrev some_events : List FifoEvent
some_events =
    opens reader false
    ∷ opens writer false
    ∷ opens writer false
    ∷ goes_on 0 false
    ∷ writes 1 user_bytes 20 5
    ∷ reads 0 user_bytes 60 3
    ∷ releases 1 true
    ∷ releases 0 false
    ∷ []

events-IsCounted_example : IsCounted 8 8 (events small_kernel kmalloc 8 nobody some_events)
events-IsCounted_example =
    events-IsCounted small_kernel kmalloc 8 0 nobody some_events small_kernel-IsLinux
      (λ n. (ring n, refl, refl)) (omega arith) (omega arith) (omega arith)
      (inl (refl, refl), (inr (refl, refl), (inr (refl, refl), tt))) nobody-IsCounted

-- Two bytes were left in the buffer when it was freed.
abbrev left_over : Session
left_over = session (record closed_fifo { wp = 2 })

failed_open_faults_example :
    (s₁ : Session) × (s₂ : Session) × (scull_p_open small_kernel
        (λ n. none)
        8
        writer
        false
        []
        left_over
      ≡ returned (err enomem) s₁)
    × (s₁.dev.writers ≡ 1)
    × (scull_p_open small_kernel (λ n. none) 8 reader false [] s₁ ≡ returned (ok 0) s₂)
    × (scull_p_read small_kernel reader false [] s₂ 60 5 ≡ oops)
failed_open_faults_example =
    failed_open_faults small_kernel (λ n. none) 8 writer reader left_over 60 5 small_kernel-IsLinux
      refl refl (λ e. omega (arith, e)) refl refl refl refl refl
