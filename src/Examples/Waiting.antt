-- ===== src/Examples/Waiting.antt =====
-- Processes that sleep at pipe devices of scull/pipe.c with a buffer of eight bytes.
use ldd3_workshop.Prelude.{◌≡◌, ◌⊎◌, inl, refl, true, false, List, [], ◌∷◌, arith}
use ldd3_workshop.Kernel.{ok}
use ldd3_workshop.Pipe.Device.{Session, lock, returned, asleep}
use ldd3_workshop.Pipe.Io.{is_full, scull_p_read}
use ldd3_workshop.Pipe.Open.{scull_p_open, open_plainly, scull_p_release}
use ldd3_workshop.Pipe.Sleepers.{
  read_on, Process, Waiters, WakeUp, Move, reads, writes, reader_enters, reader_looks, wakes,
  reader_runs, is_inq, is_outq, is_due, at_lock, moves,
}
use ldd3_workshop.Pipe.Wakeups.{IsJustified}
use ldd3_workshop.Pipe.Waking.{sleepers_go_on}
use ldd3_workshop.Pipe.Stranded.{returning, open_strands_writer, release_strands_reader}
use ldd3_workshop.Examples.Base.{small_kernel, user_bytes}
use ldd3_workshop.Examples.Pipes.{kmalloc, pipe, proper, file, after}

abbrev process : Process
process = record { file = file; user = user_bytes; buf = 20; count = 5 }

abbrev wake_all : WakeUp
wake_all ps = (ps, [])

abbrev awake : Waiters
awake = record {
  dev = pipe 0 0;
  due = [];
  leaving_readers = [];
  leaving_writers = [];
  entered_readers = [];
  entered_writers = [];
  readers = [];
  writers = [];
  woken_readers = [];
  woken_writers = [];
}

-- A reader finds nothing and enters the queue; a writer comes; the reader finds the byte in its look from
-- the queue, the wake-up comes when it waits no more, and it reads. Another reader goes to sleep.
abbrev some_moves : List Move
some_moves =
    reads process false
    ∷ reader_enters 0
    ∷ writes process false
    ∷ reader_looks 0
    ∷ wakes 0
    ∷ reader_runs 0 false
    ∷ reads process false
    ∷ reader_enters 0
    ∷ reader_looks 0
    ∷ []

sleepers_go_on_example :
    let w = moves small_kernel wake_all awake some_moves in
    IsJustified 8 w
    × ((w.readers ≡ [])
        ⊎ ((w.writers ≡ []) ⊎ ((is_due is_inq w.due ≡ true) ⊎ (is_due is_outq w.due ≡ true))))
sleepers_go_on_example =
    sleepers_go_on small_kernel wake_all 8 awake some_moves (λ ps. refl) (omega arith) (omega arith)
      (record { readers = inl refl; writers = inl refl; size = refl })

-- A writer sleeps before a full buffer.
abbrev full : Waiters
full = record awake { dev = pipe 0 7; writers = process ∷ [] }

abbrev reopened : Session
unfolding scull_p_open open_plainly
reopened =
    after (at_lock full process)
      (scull_p_open small_kernel kmalloc 8 file false [] (at_lock full process))

reopens :
    scull_p_open small_kernel kmalloc 8 file false [] (at_lock full process)
    ≡ returned (ok 0) reopened
unfolding scull_p_open open_plainly reopened
reopens = refl

open_strands_writer_example :
    let w =
      moves small_kernel wake_all
        (returning full reopened)
        (reads process false ∷ reader_enters 0 ∷ reader_looks 0 ∷ []) in
    (w.writers ≡ process ∷ []) × (is_full w.dev ≡ false) × (w.readers ≡ process ∷ []) × (w.due ≡ [])
open_strands_writer_example =
    open_strands_writer small_kernel kmalloc wake_all 8 full process process process reopened
      (λ e. ground (arith, e)) refl refl (omega arith) (omega arith) refl reopens

-- A reader sleeps before an empty buffer.
abbrev starved : Waiters
starved = record awake { dev = proper 1; readers = process ∷ [] }

release_strands_reader_example :
    let (r, s') = scull_p_release small_kernel file false (at_lock starved process) in
    let w = returning starved s' in
    let s = at_lock w process in
    (r ≡ ok 0)
    × (w.readers ≡ process ∷ [])
    × (w.due ≡ [])
    × (scull_p_read small_kernel file false [] s 20 5 ≡ returned (ok 0) s)
    × (read_on small_kernel file [] (lock s) 20 5 ≡ asleep s)
release_strands_reader_example =
    release_strands_reader small_kernel starved process process refl refl refl refl refl refl refl
