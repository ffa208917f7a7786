-- ===== src/Pipe/Sleepers.antt =====
-- Processes that sleep in `scull_p_read` and `scull_p_write` (scull/pipe.c), the wake-ups that are
-- sent to them, and when they go on.
use ldd3_workshop.Prelude.{
  ℕ, zero, suc, ◌≡◌, refl, Bool, true, false, ◌||◌, none, some, List, [], ◌∷◌, ◌++◌, get_elem?,
  if◌then◌else◌,
}
use ldd3_workshop.Kernel.{Bytes, Kernel}
use ldd3_workshop.Pipe.Device.{
  ScullPipe, File, Wake, inq, outq, openq, sigio, Session, lock, Wakeup, ready, leave, sleeping,
  Outcome, returned, asleep, oops,
}
use ldd3_workshop.Pipe.Io.{
  is_empty, is_full, read_wait, scull_getwritespace, take_out, put_in, scull_p_read, scull_p_write,
}
use ldd3_workshop.Pipe.Users.{removed}

module _ (k : Kernel) where
  -- Lines 161 to 192 of `scull_p_read`, from the loop on, with the lock taken.
  unfoldable pub read_on : File → List Wakeup → Session → ℕ → ℕ → Outcome
  read_on file ws s buf count = elim (read_wait file ws s) [
    | ready s' ↦ take_out k s' buf count
    | leave r s' ↦ returned r s'
    | sleeping s' ↦ asleep s'
  ]

  -- The same of `scull_p_write`, lines 236 to 263.
  unfoldable pub write_on : File → List Wakeup → Session → ℕ → ℕ → Outcome
  write_on file ws s buf count = elim (scull_getwritespace file ws s) [
    | ready s' ↦ put_in k s' buf count
    | leave r s' ↦ returned r s'
    | sleeping s' ↦ asleep s'
  ]

-- A process with its file, its memory and what it asks for.
pub record Process : Type 0 where
  pub file : File
  pub user : Bytes
  pub buf : ℕ
  pub count : ℕ

-- The device, the wake-ups that processes are about to send, who has released the lock in order to
-- wait, who has entered each of the two queues since (`prepare_to_wait`) but has not looked at the
-- device again, who sleeps in them, and who is done with waiting but has not taken the lock yet.
pub record Waiters : Type 0 where
  pub dev : ScullPipe
  pub due : List Wake
  pub leaving_readers : List Process
  pub leaving_writers : List Process
  pub entered_readers : List Process
  pub entered_writers : List Process
  pub readers : List Process
  pub writers : List Process
  pub woken_readers : List Process
  pub woken_writers : List Process

-- What happens next: a process starts a call, enters the queue, looks at the device from there without
-- the lock, the `i`th wake-up is sent, a process that is done with waiting takes the lock, or a signal
-- ends the sleep of a process. A Boolean is whether the wait for the lock is interrupted.
pub data Move : Type 0 where
  reads writes : Process → Bool → Move
  reader_enters writer_enters reader_looks writer_looks wakes : ℕ → Move
  reader_runs writer_runs : ℕ → Bool → Move
  reader_signalled writer_signalled : ℕ → Move

abbrev pub at_lock : Waiters → Process → Session
at_lock w p = record { dev = w.dev; holding = false; user = p.user; wakes = w.due }

abbrev pub after_read : Waiters → Process → Outcome → Waiters
after_read w p (returned r s) = record w { dev = s.dev; due = s.wakes }
after_read w p (asleep s) = record w {
  dev = s.dev;
  due = s.wakes;
  leaving_readers = p ∷ w.leaving_readers;
}
after_read w p oops = w

abbrev pub after_write : Waiters → Process → Outcome → Waiters
after_write w p (returned r s) = record w { dev = s.dev; due = s.wakes }
after_write w p (asleep s) = record w {
  dev = s.dev;
  due = s.wakes;
  leaving_writers = p ∷ w.leaving_writers;
}
after_write w p oops = w

-- `wake_up_interruptible`, from those who sleep in a queue to those it wakes up and those who go on
-- sleeping.
abbrev pub WakeUp : Type 0
WakeUp = List Process → List Process × List Process

-- It wakes all who sleep, where none of them asked for an exclusive wake-up.
abbrev pub WakesAll : WakeUp → Type 0
WakesAll wake_up = (ps : List Process) → wake_up ps ≡ (ps, [])

-- The queue has those who sleep in it and those who have entered it but not looked yet.
abbrev pub wake : WakeUp → Waiters → Wake → Waiters
wake wake_up w inq =
    let (up, rest) = wake_up w.readers in
    let (up', rest') = wake_up w.entered_readers in
    record w {
      readers = rest;
      entered_readers = rest';
      woken_readers = up ++ (up' ++ w.woken_readers);
    }
wake wake_up w outq =
    let (up, rest) = wake_up w.writers in
    let (up', rest') = wake_up w.entered_writers in
    record w {
      writers = rest;
      entered_writers = rest';
      woken_writers = up ++ (up' ++ w.woken_writers);
    }
wake wake_up w openq = w
wake wake_up w sigio = w

-- The test of `wait_event_interruptible` of line 167, made in the queue: a process that finds bytes waits
-- no more.
abbrev pub look_to_read : Waiters → Process → Waiters
look_to_read w p =
    if is_empty w.dev
    then record w { readers = p ∷ w.readers }
    else record w { woken_readers = p ∷ w.woken_readers }

-- Line 215, made in the queue: a process that finds room does not call `schedule`.
abbrev pub look_to_write : Waiters → Process → Waiters
look_to_write w p =
    if is_full w.dev
    then record w { writers = p ∷ w.writers }
    else record w { woken_writers = p ∷ w.woken_writers }

module _ (k : Kernel) where
  abbrev pub reader_goes_on : Waiters → Process → Bool → Waiters
  reader_goes_on w p true = w
  reader_goes_on w p false = after_read w p (read_on k p.file [] (lock (at_lock w p)) p.buf p.count)

  abbrev pub writer_goes_on : Waiters → Process → Bool → Waiters
  writer_goes_on w p true = w
  writer_goes_on w p false =
      after_write w p (write_on k p.file [] (lock (at_lock w p)) p.buf p.count)

module _ (k : Kernel) (wake_up : WakeUp) where
  unfoldable pub move : Waiters → Move → Waiters
  move w (reads p interrupted) =
      after_read w p (scull_p_read k p.file interrupted [] (at_lock w p) p.buf p.count)
  move w (writes p interrupted) =
      after_write w p (scull_p_write k p.file interrupted [] (at_lock w p) p.buf p.count)
  move w (reader_enters i) = elim (get_elem? w.leaving_readers i) [
    | none ↦ w
    | some p ↦ record w {
      leaving_readers = removed i w.leaving_readers;
      entered_readers = p ∷ w.entered_readers;
    }
  ]
  move w (writer_enters i) = elim (get_elem? w.leaving_writers i) [
    | none ↦ w
    | some p ↦ record w {
      leaving_writers = removed i w.leaving_writers;
      entered_writers = p ∷ w.entered_writers;
    }
  ]
  move w (reader_looks i) = elim (get_elem? w.entered_readers i) [
    | none ↦ w
    | some p ↦ look_to_read (record w { entered_readers = removed i w.entered_readers }) p
  ]
  move w (writer_looks i) = elim (get_elem? w.entered_writers i) [
    | none ↦ w
    | some p ↦ look_to_write (record w { entered_writers = removed i w.entered_writers }) p
  ]
  move w (wakes i) = elim (get_elem? w.due i) [
    | none ↦ w
    | some q ↦ wake wake_up (record w { due = removed i w.due }) q
  ]
  move w (reader_runs i interrupted) = elim (get_elem? w.woken_readers i) [
    | none ↦ w
    | some p ↦
        reader_goes_on k (record w { woken_readers = removed i w.woken_readers }) p interrupted
  ]
  move w (writer_runs i interrupted) = elim (get_elem? w.woken_writers i) [
    | none ↦ w
    | some p ↦
        writer_goes_on k (record w { woken_writers = removed i w.woken_writers }) p interrupted
  ]
  move w (reader_signalled i) = record w { readers = removed i w.readers }
  move w (writer_signalled i) = record w { writers = removed i w.writers }

  unfoldable pub moves : Waiters → List Move → Waiters
  moves w [] = w
  moves w (m ∷ ms) = moves (move w m) ms

abbrev pub is_inq : Wake → Bool
is_inq inq = true
is_inq outq = false
is_inq openq = false
is_inq sigio = false

abbrev pub is_outq : Wake → Bool
is_outq inq = false
is_outq outq = true
is_outq openq = false
is_outq sigio = false

-- One of the wake-ups is for the queue.
unfoldable pub is_due : (Wake → Bool) → List Wake → Bool
is_due queue [] = false
is_due queue (q ∷ qs) = queue q || is_due queue qs

-- Sending a wake-up for another queue leaves those for this one.
pub is_due-removed :
    (queue : Wake → Bool) (i : ℕ) (qs : List Wake) (q : Wake)
    → get_elem? qs i ≡ some q
    → queue q ≡ false
    → is_due queue (removed i qs) ≡ is_due queue qs
unfolding is_due removed
is_due-removed queue i [] q at other = cc
is_due-removed queue zero (r ∷ qs) q at other = let same : queue r ≡ false = cc in rw same refl
is_due-removed queue (suc i) (r ∷ qs) q at other = rw (is_due-removed queue i qs q at other) refl
