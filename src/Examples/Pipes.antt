-- ===== src/Examples/Pipes.antt =====
-- Pipe devices of scull/pipe.c with a buffer of eight bytes.
use ldd3_workshop.Prelude.{
  ℕ, ◌≡◌, ◌≢◌, ◌⊎◌, ◌↔◌, inl, inr, refl, true, false, none, some, List, [], ◌∷◌, arith,
}
use ldd3_workshop.Kernel.{ok, err, eagain}
use ldd3_workshop.Pipe.Device.{
  Buffer, ScullPipe, proper_fifo_beh_idx, File, Session, unlock, Wakeup, resumed, Outcome, returned,
  asleep, oops, spacefree,
}
use ldd3_workshop.Pipe.Io.{
  sleep_while, read_wait, scull_getwritespace, take_out, put_in, scull_p_read, scull_p_write,
  scull_p_poll,
}
use ldd3_workshop.Pipe.Open.{Kmalloc, scull_p_open}
use ldd3_workshop.Pipe.Ring.{IsOpen, contents, fill, waiting, tabulate}
use ldd3_workshop.Pipe.Transfer.{Took, Put}
use ldd3_workshop.Pipe.Handlers.{Seen, AllOpen, IsClean, is_at_end}
use ldd3_workshop.Pipe.Calls.{scull_p_read-Took, scull_p_write-Put, calls-IsClean, poll_agrees}
use ldd3_workshop.Pipe.Counts.{grown_len_overflows}
use ldd3_workshop.Pipe.History.{Call, read, write, History, IsFifo, run, run-IsFifo}
use ldd3_workshop.Examples.Base.{small_kernel, small_kernel-IsLinux, user_bytes}

abbrev pub ring : ℕ → Buffer
ring n = record { size = n; bytes = λ i. i }

abbrev pub kmalloc : Kmalloc
kmalloc n = some (ring n)

-- An open device with its pointers, and one writer.
abbrev pub pipe : ℕ → ℕ → ScullPipe
pipe rp wp = record {
  idx = 0;
  buf = some (ring 8);
  end = 8;
  buf_len = 8;
  rp = rp;
  wp = wp;
  readers = 0;
  writers = 1;
  async_q = [];
}

abbrev pub file : File
file = record { id = 1; mode_read = true; mode_write = true; nonblock = false }

abbrev pub session : ScullPipe → Session
session dev = record { dev = dev; holding = false; user = user_bytes; wakes = [] }

-- Four bytes wait in it, at the indices 6, 7, 0 and 1.
abbrev wrapped : ScullPipe
wrapped = pipe 6 2

empty-IsOpen : IsOpen (pipe 0 0)
empty-IsOpen = record {
  some_room = omega arith;
  small = omega arith;
  allocated = omega arith;
  end_is = refl;
  rp_in = omega arith;
  wp_in = omega arith;
}

wrapped-IsOpen : IsOpen wrapped
wrapped-IsOpen = record {
  some_room = omega arith;
  small = omega arith;
  allocated = omega arith;
  end_is = refl;
  rp_in = omega arith;
  wp_in = omega arith;
}

-- The process finds no bytes, sleeps, and finds some.
abbrev woken : List Wakeup
woken = resumed wrapped ∷ []

woken-AllOpen : AllOpen woken (pipe 0 0)
woken-AllOpen d (inl e) = rw e empty-IsOpen
woken-AllOpen d (inr e) = rw e wrapped-IsOpen

abbrev pub after : Session → Outcome → Session
after s (returned r s') = s'
after s (asleep s') = s'
after s oops = s

abbrev read_two : Session
unfolding sleep_while read_wait take_out scull_p_read
read_two =
    after (session wrapped) (scull_p_read small_kernel file false woken (session (pipe 0 0)) 60 5)

reads_two :
    scull_p_read small_kernel file false woken (session (pipe 0 0)) 60 5 ≡ returned (ok 2) read_two
unfolding sleep_while read_wait take_out scull_p_read
reads_two = refl

scull_p_read-Took_example :
    ((is_at_end (pipe 0 0) ≡ true) × (◌≡◌ {A = ℕ} 2 0) × (read_two ≡ unlock (session (pipe 0 0))))
    ⊎ ((d : ScullPipe) × Seen woken (pipe 0 0) d
        × (d.rp ≢ d.wp)
        × Took (record (session (pipe 0 0)) { dev = d; holding = true }) 60 5 2 read_two)
scull_p_read-Took_example =
    scull_p_read-Took small_kernel file woken (session (pipe 0 0)) 60 5 2 read_two
      small_kernel-IsLinux woken-AllOpen reads_two

abbrev wrote_three : Session
unfolding sleep_while scull_getwritespace put_in scull_p_write spacefree
wrote_three =
    after (session wrapped) (scull_p_write small_kernel file false [] (session wrapped) 20 5)

writes_three :
    scull_p_write small_kernel file false [] (session wrapped) 20 5 ≡ returned (ok 3) wrote_three
unfolding sleep_while scull_getwritespace put_in scull_p_write spacefree
writes_three = refl

scull_p_write-Put_example :
    (d : ScullPipe) × Seen [] wrapped d
    × (spacefree d ≢ 0)
    × Put (record (session wrapped) { dev = d; holding = true }) 20 5 3 wrote_three
scull_p_write-Put_example =
    scull_p_write-Put small_kernel file [] (session wrapped) 20 5 3 wrote_three small_kernel-IsLinux
      (λ d e. rw e wrapped-IsOpen) writes_three

calls-IsClean_example :
    IsClean (scull_p_read small_kernel file false woken (session (pipe 0 0)) 60 5)
    × IsClean (scull_p_write small_kernel file false woken (session (pipe 0 0)) 60 5)
calls-IsClean_example =
    calls-IsClean small_kernel file false woken (session (pipe 0 0)) 60 5 small_kernel-IsLinux
      woken-AllOpen refl

abbrev nonblocking : File
nonblocking = record file { nonblock = true }

poll_agrees_example :
    let s = session (pipe 0 0) in
    let m = scull_p_poll s.dev in
    let again = returned (err eagain) (unlock s) in
    ((m.pollin ≡ false) ↔ (scull_p_read small_kernel nonblocking false [] s 60 5 ≡ again))
    × ((m.pollout ≡ false) ↔ (scull_p_write small_kernel nonblocking false [] s 60 5 ≡ again))
unfolding scull_p_poll
poll_agrees_example = poll_agrees small_kernel nonblocking (session (pipe 0 0)) 60 5 refl refl

abbrev calls : List Call
calls = write file user_bytes 20 5 ∷ read file user_bytes 60 3 ∷ write file user_bytes 30 9 ∷ []

abbrev nothing_sent : History
nothing_sent = record { dev = pipe 0 0; sent = []; received = [] }

nothing_sent-IsFifo : IsFifo nothing_sent
unfolding contents waiting fill tabulate
nothing_sent-IsFifo = record { is_open = empty-IsOpen; in_order = refl }

run-IsFifo_example : IsFifo (run small_kernel nothing_sent calls)
run-IsFifo_example =
    run-IsFifo small_kernel calls nothing_sent small_kernel-IsLinux nothing_sent-IsFifo

-- A device that nobody has opened yet, and the same with the number of the proper behaviour.
abbrev pub closed : ScullPipe
closed = record {
  idx = 0;
  buf = none;
  end = 0;
  buf_len = 0;
  rp = 0;
  wp = 0;
  readers = 0;
  writers = 0;
  async_q = [];
}

abbrev pub proper : ℕ → ScullPipe
proper writers = record (pipe 0 0) { idx = proper_fifo_beh_idx; writers = writers }

grown_len_overflows_example :
    (s' : Session) × (scull_p_open small_kernel kmalloc 16 file false [] (session (pipe 0 0))
      ≡ returned (ok 0) s')
    × (scull_p_write small_kernel file false [] s' 20 12 ≡ oops)
grown_len_overflows_example =
    grown_len_overflows small_kernel kmalloc 16 file (session (pipe 0 0)) (ring 8) [] 20 12
      small_kernel-IsLinux (λ e. ground arith) refl (omega arith) (omega arith) (omega arith)
