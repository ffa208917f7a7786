-- ===== src/Pipe/Stranded.antt =====
-- Opening and closing a pipe device (scull/pipe.c) while other processes sleep.
use ldd3_workshop.Prelude.{ℕ, ◌^◌, ◌<◌, ◌≡◌, ◌≢◌, refl, ◌∙◌, true, false, [], ◌∷◌, arith, ◌==◌}
use ldd3_workshop.Kernel.{ok, Kernel}
use ldd3_workshop.Pipe.Device.{
  proper_fifo_beh_idx, File, Session, lock, unlock, returned, sleeping, asleep, spacefree,
}
use ldd3_workshop.Pipe.Io.{is_empty, is_full, sleep_while, read_wait, scull_p_read}
use ldd3_workshop.Pipe.Open.{Kmalloc, scull_p_open, open_plainly, scull_p_release}
use ldd3_workshop.Pipe.Users.{removed}
use ldd3_workshop.Pipe.Waking.{blocked_open}
use ldd3_workshop.Pipe.Sleepers.{
  read_on, Process, Waiters, WakeUp, reads, reader_enters, reader_looks, at_lock, move, moves,
}

-- The processes after a call that returned with the session.
abbrev pub returning : Waiters → Session → Waiters
returning w s = record w { dev = s.dev; due = s.wakes }

record Emptied (len : ℕ) (s s' : Session) : Type 0 where
  rp : s'.dev.rp ≡ 0
  wp : s'.dev.wp ≡ 0
  size : s'.dev.buf_len ≡ len
  idx : s'.dev.idx ≡ s.dev.idx
  wakes : s'.wakes ≡ s.wakes

plain_open-Emptied :
    (k : Kernel) (kmalloc : Kmalloc) (len : ℕ) (file : File) (s s' : Session)
    → s.dev.idx ≢ proper_fifo_beh_idx
    → scull_p_open k kmalloc len file false [] s ≡ returned (ok 0) s'
    → Emptied len s s'
unfolding scull_p_open open_plainly
plain_open-Emptied k kmalloc len file s s' other e = record {
  rp = ground arith;
  wp = ground arith;
  size = ground arith;
  idx = ground arith;
  wakes = ground arith;
}

-- A blocking reader of an empty device releases the lock, enters the queue, finds nothing there either
-- and goes to sleep.
reader_leaves :
    (k : Kernel) (wake_up : WakeUp) (w : Waiters) (p : Process)
    → w.dev.idx ≢ proper_fifo_beh_idx
    → is_empty w.dev ≡ true
    → p.file.nonblock ≡ false
    → move k wake_up w (reads p false) ≡ record w { leaving_readers = p ∷ w.leaving_readers }
unfolding move scull_p_read read_wait sleep_while
reader_leaves k wake_up w p other empty blocks =
    let plain : (w.dev.idx == proper_fifo_beh_idx) ≡ false = ground (arith, other) in
    let rest = sleeping (unlock (lock (at_lock w p))) in
    rw (plain, empty, blocked_open p.file (lock (at_lock w p)) rest blocks) refl

reader_sleeps :
    (k : Kernel) (wake_up : WakeUp) (w : Waiters) (p : Process)
    → w.dev.idx ≢ proper_fifo_beh_idx
    → is_empty w.dev ≡ true
    → p.file.nonblock ≡ false
    → moves k wake_up w (reads p false ∷ reader_enters 0 ∷ reader_looks 0 ∷ [])
      ≡ record w { readers = p ∷ w.readers }
unfolding moves move removed
reader_sleeps k wake_up w p other empty blocks =
    rw (reader_leaves k wake_up w p other empty blocks, empty) refl

-- A process opens a device other than the one with the proper behaviour while a writer sleeps for
-- room: the buffer is emptied, but no wake-up is sent. A blocking reader that then comes goes to
-- sleep too, so that the writer sleeps although there is room, the reader sleeps, and no wake-up is
-- to be sent.
pub open_strands_writer :
    (k : Kernel) (kmalloc : Kmalloc) (wake_up : WakeUp) (len : ℕ) (w : Waiters)
    (opener reader writer : Process) (s' : Session)
    → w.dev.idx ≢ proper_fifo_beh_idx
    → w.writers ≡ writer ∷ []
    → w.due ≡ []
    → 1 < len
    → len < 2 ^ 64
    → reader.file.nonblock ≡ false
    → scull_p_open k kmalloc len opener.file false [] (at_lock w opener) ≡ returned (ok 0) s'
    → let w' =
        moves k wake_up
          (returning w s')
          (reads reader false ∷ reader_enters 0 ∷ reader_looks 0 ∷ []) in
      (w'.writers ≡ writer ∷ [])
      × (is_full w'.dev ≡ false)
      × (w'.readers ≡ reader ∷ w.readers)
      × (w'.due ≡ [])
unfolding spacefree
open_strands_writer k kmalloc wake_up len w opener reader writer s' other asleep_there nothing_due
      more small blocks e =
    let o = plain_open-Emptied k kmalloc len opener.file (at_lock w opener) s' other e in
    let plain : s'.dev.idx ≢ proper_fifo_beh_idx = λ same. other (omega (arith, same, o.idx)) in
    rw (reader_sleeps k wake_up (returning w s') reader plain (ground (arith, o.rp, o.wp)) blocks)
      (asleep_there, ground (arith, o.rp, o.wp, o.size), refl, o.wakes ∙ nothing_due)

record Ended (s s' : Session) : Type 0 where
  writers : s'.dev.writers ≡ 0
  rp : s'.dev.rp ≡ s.dev.rp
  wp : s'.dev.wp ≡ s.dev.wp
  idx : s'.dev.idx ≡ s.dev.idx
  wakes : s'.wakes ≡ s.wakes

last_release-Ended :
    (k : Kernel) (file : File) (s : Session)
    → s.dev.writers ≡ 1
    → file.mode_write ≡ true
    → Ended s (scull_p_release k file false s).1
unfolding scull_p_release
last_release-Ended k file s one writes = record {
  writers = ground arith;
  rp = ground arith;
  wp = ground arith;
  idx = ground arith;
  wakes = refl;
}

-- On a device of the proper behaviour without bytes and writers a read ends, but not one that is
-- woken up.
read_at_end :
    (k : Kernel) (file : File) (s : Session) (buf count : ℕ)
    → s.dev.idx ≡ proper_fifo_beh_idx
    → s.dev.writers ≡ 0
    → is_empty s.dev ≡ true
    → file.nonblock ≡ false
    → (scull_p_read k file false [] s buf count ≡ returned (ok 0) (unlock s))
      × (read_on k file [] (lock s) buf count ≡ asleep (unlock s))
unfolding scull_p_read read_on read_wait sleep_while
read_at_end k file s buf count proper no_writer empty blocks =
    let rest = sleeping (unlock (lock s)) in
    (
      ground arith,
      rw (read_on, read_wait, sleep_while, empty, blocked_open file (lock s) rest blocks) refl,
    )

-- The last writer of the device with the proper behaviour closes it while a reader sleeps for bytes:
-- no wake-up is sent, so the reader goes on sleeping, though a read of the same process that starts
-- now returns 0. Even where the reader is woken up it goes back to sleep.
pub release_strands_reader :
    (k : Kernel) (w : Waiters) (closer reader : Process)
    → w.dev.idx ≡ proper_fifo_beh_idx
    → w.dev.writers ≡ 1
    → is_empty w.dev ≡ true
    → w.readers ≡ reader ∷ []
    → w.due ≡ []
    → reader.file.nonblock ≡ false
    → closer.file.mode_write ≡ true
    → let (r, s') = scull_p_release k closer.file false (at_lock w closer) in
      let w' = returning w s' in
      let s = at_lock w' reader in
      (r ≡ ok 0)
      × (w'.readers ≡ reader ∷ [])
      × (w'.due ≡ [])
      × (scull_p_read k reader.file false [] s reader.buf reader.count ≡ returned (ok 0) s)
      × (read_on k reader.file [] (lock s) reader.buf reader.count ≡ asleep s)
unfolding scull_p_release
release_strands_reader k w closer reader proper one_writer empty there nothing_due blocks writes =
    let s' = (scull_p_release k closer.file false (at_lock w closer)).1 in
    let o = last_release-Ended k closer.file (at_lock w closer) one_writer writes in
    let (ends, sleeps) =
      read_at_end k reader.file (at_lock (returning w s') reader) reader.buf reader.count
        (o.idx ∙ proper) o.writers (rw (o.rp, o.wp) empty) blocks in
    (refl, there, o.wakes ∙ nothing_due, ends, sleeps)
