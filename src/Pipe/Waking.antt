-- ===== src/Pipe/Waking.antt =====
-- Readers and writers of a pipe device (scull/pipe.c) that wake each other up, in any order.
use ldd3_workshop.Prelude.{
  ℕ, ◌^◌, ◌<◌, ◌≡◌, ◌≢◌, ◌⊎◌, inl, inr, refl, ap, Bool, true, false, List, [], ◌∷◌, get_elem?,
  arith, Option-cases, ◌==◌, if◌then◌else◌,
}
use ldd3_workshop.Kernel.{err, eagain, Kernel}
use ldd3_workshop.Pipe.Device.{
  ScullPipe, File, Session, lock, unlock, Wakeup, resumed, Waited, leave, spacefree,
  proper_fifo_beh_idx,
}
use ldd3_workshop.Pipe.Io.{
  is_empty, is_full, blocked, sleep_while, read_wait, scull_getwritespace, scull_p_read,
  scull_p_write,
}
use ldd3_workshop.Pipe.Users.{removed}
use ldd3_workshop.Pipe.Sleepers.{
  is_inq, is_outq, is_due, read_on, write_on, Process, Waiters, WakeUp, WakesAll, Move, reads,
  writes, reader_enters, writer_enters, reader_looks, writer_looks, wakes, reader_runs, writer_runs,
  reader_signalled, writer_signalled, at_lock, reader_goes_on, writer_goes_on, move, moves,
}
use ldd3_workshop.Pipe.Wakeups.{
  IsJustified, Rests, scull_p_read-ReadEnd, scull_p_write-WriteEnd, read_on-ReadEnd,
  write_on-WriteEnd, after_read-IsJustified, after_write-IsJustified, wake-IsJustified,
  look_to_read-IsJustified, look_to_write-IsJustified,
}

pub blocked_open :
    (file : File) (s : Session) (rest : Waited) → file.nonblock ≡ false → blocked file s rest ≡ rest
blocked_open file s rest blocks = ap (λ b. if b then leave (err eagain) (unlock s) else rest) blocks

module _ (k : Kernel) where
  -- A call whose sleep ends with the lock taken goes on as `read_on`, on the device of that time.
  pub read_on-resumed :
      (file : File) (ws : List Wakeup) (s : Session) (d : ScullPipe) (buf count : ℕ)
      → s.dev.idx ≢ proper_fifo_beh_idx
      → is_empty s.dev ≡ true
      → file.nonblock ≡ false
      → scull_p_read k file false (resumed d ∷ ws) s buf count
        ≡ read_on k file ws (lock (record s { dev = d })) buf count
  unfolding scull_p_read read_on read_wait sleep_while
  read_on-resumed file ws s d buf count plain empty blocks =
      let other : (s.dev.idx == proper_fifo_beh_idx) ≡ false = ground (arith, plain) in
      let rest = sleep_while is_empty file ws (lock (record s { dev = d })) in
      rw (other, empty, blocked_open file (lock s) rest blocks) refl

  pub write_on-resumed :
      (file : File) (ws : List Wakeup) (s : Session) (d : ScullPipe) (buf count : ℕ)
      → is_full s.dev ≡ true
      → file.nonblock ≡ false
      → scull_p_write k file false (resumed d ∷ ws) s buf count
        ≡ write_on k file ws (lock (record s { dev = d })) buf count
  unfolding scull_p_write write_on scull_getwritespace sleep_while
  write_on-resumed file ws s d buf count full blocks =
      let rest = sleep_while is_full file ws (lock (record s { dev = d })) in
      rw (full, blocked_open file (lock s) rest blocks) refl

  module _ (len : ℕ) where
    removed-Rests :
        (i : ℕ) (ps : List Process) (b c : Bool) → Rests ps b c → Rests (removed i ps) b c
    unfolding removed
    removed-Rests i ps b c (inl none_there) = rw none_there (inl refl)
    removed-Rests i ps b c (inr why) = inr why

    reader_goes_on-IsJustified :
        (w : Waiters) (p : Process) (interrupted : Bool)
        → IsJustified len w
        → IsJustified len (reader_goes_on k w p interrupted)
    reader_goes_on-IsJustified w p true j = j
    reader_goes_on-IsJustified w p false j =
        after_read-IsJustified len w p _
          (read_on-ReadEnd k p.file (lock (at_lock w p)) p.buf p.count) j

    writer_goes_on-IsJustified :
        (w : Waiters) (p : Process) (interrupted : Bool)
        → IsJustified len w
        → IsJustified len (writer_goes_on k w p interrupted)
    writer_goes_on-IsJustified w p true j = j
    writer_goes_on-IsJustified w p false j =
        after_write-IsJustified len w p _
          (write_on-WriteEnd k p.file (lock (at_lock w p)) p.buf p.count) j

    module _ (wake_up : WakeUp) (all : WakesAll wake_up) where
      move-IsJustified :
          (w : Waiters) (m : Move) → IsJustified len w → IsJustified len (move k wake_up w m)
      unfolding move
      move-IsJustified w (reads p interrupted) j =
          after_read-IsJustified len w p _
            (scull_p_read-ReadEnd k p.file interrupted (at_lock w p) p.buf p.count) j
      move-IsJustified w (writes p interrupted) j =
          after_write-IsJustified len w p _
            (scull_p_write-WriteEnd k p.file interrupted (at_lock w p) p.buf p.count) j
      move-IsJustified w (reader_enters i) j = elim (Option-cases (get_elem? w.leaving_readers i)) [
        | inl e ↦ rw (e, move) j
        | inr (p, e) ↦
            rw (e, move) (record { readers = j.readers; writers = j.writers; size = j.size })
      ]
      move-IsJustified w (reader_looks i) j = elim (Option-cases (get_elem? w.entered_readers i)) [
        | inl e ↦ rw (e, move) j
        | inr (p, e) ↦
            rw (e, move)
              (look_to_read-IsJustified len
                (record w { entered_readers = removed i w.entered_readers }) p
                (record { readers = j.readers; writers = j.writers; size = j.size }))
      ]
      move-IsJustified w (writer_enters i) j = elim (Option-cases (get_elem? w.leaving_writers i)) [
        | inl e ↦ rw (e, move) j
        | inr (p, e) ↦
            rw (e, move) (record { readers = j.readers; writers = j.writers; size = j.size })
      ]
      move-IsJustified w (writer_looks i) j = elim (Option-cases (get_elem? w.entered_writers i)) [
        | inl e ↦ rw (e, move) j
        | inr (p, e) ↦
            rw (e, move)
              (look_to_write-IsJustified len
                (record w { entered_writers = removed i w.entered_writers }) p
                (record { readers = j.readers; writers = j.writers; size = j.size }))
      ]
      move-IsJustified w (wakes i) j = elim (Option-cases (get_elem? w.due i)) [
        | inl e ↦ rw (e, move) j
        | inr (q, e) ↦ rw (e, move) (wake-IsJustified len wake_up w i q all e j)
      ]
      move-IsJustified w (reader_runs i interrupted) j =
          elim (Option-cases (get_elem? w.woken_readers i)) [
            | inl e ↦ rw (e, move) j
            | inr (p, e) ↦
                rw (e, move)
                  (reader_goes_on-IsJustified
                    (record w { woken_readers = removed i w.woken_readers }) p interrupted
                    (record { readers = j.readers; writers = j.writers; size = j.size }))
          ]
      move-IsJustified w (writer_runs i interrupted) j =
          elim (Option-cases (get_elem? w.woken_writers i)) [
            | inl e ↦ rw (e, move) j
            | inr (p, e) ↦
                rw (e, move)
                  (writer_goes_on-IsJustified
                    (record w { woken_writers = removed i w.woken_writers }) p interrupted
                    (record { readers = j.readers; writers = j.writers; size = j.size }))
          ]
      move-IsJustified w (reader_signalled i) j = record {
        readers = removed-Rests i w.readers _ _ j.readers;
        writers = j.writers;
        size = j.size;
      }
      move-IsJustified w (writer_signalled i) j = record {
        readers = j.readers;
        writers = removed-Rests i w.writers _ _ j.writers;
        size = j.size;
      }

      moves-IsJustified :
          (w : Waiters) (ms : List Move)
          → IsJustified len w
          → IsJustified len (moves k wake_up w ms)
      unfolding moves
      moves-IsJustified w [] j = j
      moves-IsJustified w (m ∷ ms) j =
          moves-IsJustified (move k wake_up w m) ms (move-IsJustified w m j)

-- A buffer of more than one byte is not empty and full.
empty_not_full :
    (d : ScullPipe) → 1 < d.buf_len → d.buf_len < 2 ^ 64 → is_empty d ≡ true → is_full d ≡ false
unfolding spacefree
empty_not_full d more small empty = ground arith

-- Whatever calls of `scull_p_read` and `scull_p_write` come on a device whose buffer has more than
-- one byte, in whatever order they, the moments at which a process that has released the lock enters
-- the queue and looks at the device again without the lock, the wake-ups that the calls send, the woken
-- processes and signals run, where a wake-up wakes all who are in its queue: if it was so at the start,
-- a reader that sleeps has an empty buffer before it and a writer that sleeps a full one, unless a
-- wake-up for it is still to be sent. So readers and writers sleep at the same time only while a
-- wake-up for one of them is still to be sent.
pub sleepers_go_on :
    (k : Kernel) (wake_up : WakeUp) (len : ℕ) (w : Waiters) (ms : List Move)
    → WakesAll wake_up
    → 1 < len
    → len < 2 ^ 64
    → IsJustified len w
    → let w' = moves k wake_up w ms in
      IsJustified len w'
      × ((w'.readers ≡ [])
          ⊎ ((w'.writers ≡ []) ⊎ ((is_due is_inq w'.due ≡ true) ⊎ (is_due is_outq w'.due ≡ true))))
sleepers_go_on k wake_up len w ms all more small j =
    let w' = moves k wake_up w ms in
    let j' = moves-IsJustified k len wake_up all w ms j in
    (
      j',
      elim j'.readers [
        | inl nobody ↦ inl nobody
        | inr (inr due) ↦ inr (inr (inl due))
        | inr (inl empty) ↦ elim j'.writers [
          | inl nobody ↦ inr (inl nobody)
          | inr (inr due) ↦ inr (inr (inr due))
          | inr (inl full) ↦
              (let some_room =
                  empty_not_full w'.dev (omega (arith, j'.size)) (omega (arith, j'.size)) empty in
                absurd (ground (arith, some_room, full)))
        ]
      ],
    )
