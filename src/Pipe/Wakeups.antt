-- ===== src/Pipe/Wakeups.antt =====
-- No wake-up is lost between `scull_p_read` and `scull_p_write` (scull/pipe.c).
use ldd3_workshop.Prelude.{
  ℕ, ◌≡◌, ◌⊎◌, inl, inr, refl, ap, ◌∙◌, Bool, true, false, ◌&&◌, some, List, [], ◌∷◌, get_elem?,
  arith, Option-cases, Bool-cases, ◌==◌,
}
use ldd3_workshop.Kernel.{Kernel}
use ldd3_workshop.Pipe.Device.{
  ScullPipe, File, Wake, inq, outq, openq, sigio, Session, lock, Outcome, returned, asleep, oops,
  spacefree, proper_fifo_beh_idx,
}
use ldd3_workshop.Pipe.Io.{
  is_empty, is_full, sleep_while, read_wait, scull_getwritespace, take_out, put_in, scull_p_read,
  scull_p_write,
}
use ldd3_workshop.Pipe.Users.{removed}
use ldd3_workshop.Pipe.Sleepers.{
  read_on, write_on, Process, Waiters, WakeUp, WakesAll, at_lock, after_read, after_write, wake,
  look_to_read, look_to_write, is_inq, is_outq, is_due, is_due-removed,
}

-- The pointers, the size and the wake-ups are as they were.
abbrev pub Same : Session → Session → Type 0
Same s s' =
    (s'.dev.rp ≡ s.dev.rp)
    × (s'.dev.wp ≡ s.dev.wp)
    × (s'.dev.buf_len ≡ s.dev.buf_len)
    × (s'.wakes ≡ s.wakes)

abbrev pub ReadEnd : Session → Outcome → Type 0
ReadEnd s (returned r s') =
    Same s s'
    ⊎ ((is_empty s.dev ≡ false) × (s'.dev.buf_len ≡ s.dev.buf_len) × (s'.wakes ≡ outq ∷ s.wakes))
ReadEnd s (asleep s') = Same s s' × (is_empty s.dev ≡ true)
ReadEnd s oops = Unit

abbrev pub WriteEnd : Session → Outcome → Type 0
WriteEnd s (returned r s') =
    Same s s'
    ⊎ ((is_full s.dev ≡ false)
        × (s'.dev.buf_len ≡ s.dev.buf_len)
        × ((s'.wakes ≡ inq ∷ s.wakes) ⊎ (s'.wakes ≡ sigio ∷ inq ∷ s.wakes)))
WriteEnd s (asleep s') = Same s s' × (is_full s.dev ≡ true)
WriteEnd s oops = Unit

module _ (k : Kernel) where
  take_out-ReadEnd :
      (s : Session) (buf count : ℕ) → is_empty s.dev ≡ false → ReadEnd s (take_out k s buf count)
  unfolding take_out
  take_out-ReadEnd s buf count some_bytes = elim (Option-cases s.dev.buf) [
    | inl e ↦ rw e tt
    | inr (b, e) ↦ rw (e, take_out, ReadEnd) (ground (arith, some_bytes))
  ]

  put_in-WriteEnd :
      (s : Session) (buf count : ℕ) → is_full s.dev ≡ false → WriteEnd s (put_in k s buf count)
  unfolding put_in
  put_in-WriteEnd s buf count some_room = elim (Option-cases s.dev.buf) [
    | inl e ↦ rw e tt
    | inr (b, e) ↦ rw (e, put_in, WriteEnd) (ground (arith, some_room))
  ]

  pub read_on-ReadEnd :
      (file : File) (s : Session) (buf count : ℕ) → ReadEnd s (read_on k file [] s buf count)
  unfolding read_on read_wait sleep_while
  read_on-ReadEnd file s buf count = elim (Bool-cases (is_empty s.dev)) [
    | inr some_bytes ↦ rw (some_bytes, ReadEnd) (take_out-ReadEnd s buf count some_bytes)
    | inl empty ↦
        rw (empty, ReadEnd)
          (elim (Bool-cases file.nonblock) [
            | inl e ↦ rw e (inl (refl, refl, refl, refl))
            | inr e ↦ rw e ((refl, refl, refl, refl), empty)
          ])
  ]

  pub write_on-WriteEnd :
      (file : File) (s : Session) (buf count : ℕ) → WriteEnd s (write_on k file [] s buf count)
  unfolding write_on scull_getwritespace sleep_while
  write_on-WriteEnd file s buf count = elim (Bool-cases (is_full s.dev)) [
    | inr some_room ↦ rw (some_room, WriteEnd) (put_in-WriteEnd s buf count some_room)
    | inl full ↦
        rw (full, WriteEnd)
          (elim (Bool-cases file.nonblock) [
            | inl e ↦ rw e (inl (refl, refl, refl, refl))
            | inr e ↦ rw e ((refl, refl, refl, refl), full)
          ])
  ]

  pub scull_p_read-ReadEnd :
      (file : File) (interrupted : Bool) (s : Session) (buf count : ℕ)
      → ReadEnd s (scull_p_read k file interrupted [] s buf count)
  unfolding scull_p_read read_wait read_on
  scull_p_read-ReadEnd file true s buf count = inl (refl, refl, refl, refl)
  scull_p_read-ReadEnd file false s buf count =
      elim (Bool-cases
        ((s.dev.idx == proper_fifo_beh_idx) && (is_empty s.dev && (s.dev.writers == 0)))) [
          | inl at_end ↦ rw at_end (inl (refl, refl, refl, refl))
          | inr more ↦ rw more (read_on-ReadEnd file (lock s) buf count)
        ]

  pub scull_p_write-WriteEnd :
      (file : File) (interrupted : Bool) (s : Session) (buf count : ℕ)
      → WriteEnd s (scull_p_write k file interrupted [] s buf count)
  unfolding scull_p_write scull_getwritespace write_on
  scull_p_write-WriteEnd file true s buf count = inl (refl, refl, refl, refl)
  scull_p_write-WriteEnd file false s buf count = write_on-WriteEnd file (lock s) buf count

-- Nobody sleeps in a queue, or what it waits for is not there, or a wake-up is still to be sent.
abbrev pub Rests : List Process → Bool → Bool → Type 0
Rests sleepers stuck due = (sleepers ≡ []) ⊎ ((stuck ≡ true) ⊎ (due ≡ true))

-- Who sleeps for bytes has an empty buffer before it, and who sleeps for room a full one, unless
-- a wake-up is still to be sent. The buffer has the size `len`.
pub record IsJustified (len : ℕ) (w : Waiters) : Type 0 where
  pub readers : Rests w.readers (is_empty w.dev) (is_due is_inq w.due)
  pub writers : Rests w.writers (is_full w.dev) (is_due is_outq w.due)
  pub size : w.dev.buf_len ≡ len

same_ring :
    (d d' : ScullPipe)
    → d'.rp ≡ d.rp
    → d'.wp ≡ d.wp
    → d'.buf_len ≡ d.buf_len
    → (is_empty d' ≡ is_empty d) × (is_full d' ≡ is_full d)
unfolding spacefree
same_ring d d' r w b = (rw (r, w) refl, rw (r, w, b) refl)

module _ (len : ℕ) where
  Same-IsJustified :
      (w : Waiters) (p : Process) (s' : Session)
      → Same (at_lock w p) s'
      → IsJustified len w
      → IsJustified len (record w { dev = s'.dev; due = s'.wakes })
  Same-IsJustified w p s' (r, wp, b, ws) j =
      let (e, f) = same_ring w.dev s'.dev r wp b in
      record { readers = rw (e, ws) j.readers; writers = rw (f, ws) j.writers; size = b ∙ j.size }

  pub after_read-IsJustified :
      (w : Waiters) (p : Process) (o : Outcome)
      → ReadEnd (at_lock w p) o
      → IsJustified len w
      → IsJustified len (after_read w p o)
  unfolding is_due
  after_read-IsJustified w p (returned r s') (inl same) j = Same-IsJustified w p s' same j
  after_read-IsJustified w p (returned r s') (inr (some_bytes, b, ws)) j = record {
    readers = elim j.readers [
      | inl nobody ↦ inl nobody
      | inr (inl empty) ↦ absurd (ground (arith, some_bytes, empty))
      | inr (inr due) ↦ inr (inr (rw ws due))
    ];
    writers = inr (inr (rw ws refl));
    size = b ∙ j.size;
  }
  after_read-IsJustified w p (asleep s') (same, empty) j =
      let j' = Same-IsJustified w p s' same j in
      record { readers = j'.readers; writers = j'.writers; size = j'.size }
  after_read-IsJustified w p oops e j = j

  pub after_write-IsJustified :
      (w : Waiters) (p : Process) (o : Outcome)
      → WriteEnd (at_lock w p) o
      → IsJustified len w
      → IsJustified len (after_write w p o)
  unfolding is_due
  after_write-IsJustified w p (returned r s') (inl same) j = Same-IsJustified w p s' same j
  after_write-IsJustified w p (returned r s') (inr (some_room, b, ws)) j = record {
    readers = elim ws [ inl e ↦ inr (inr (rw e refl)) | inr e ↦ inr (inr (rw e refl)) ];
    writers = elim j.writers [
      | inl nobody ↦ inl nobody
      | inr (inl full) ↦ absurd (ground (arith, some_room, full))
      | inr (inr due) ↦ elim ws [ inl e ↦ inr (inr (rw e due)) | inr e ↦ inr (inr (rw e due)) ]
    ];
    size = b ∙ j.size;
  }
  after_write-IsJustified w p (asleep s') (same, full) j =
      let j' = Same-IsJustified w p s' same j in
      record { readers = j'.readers; writers = j'.writers; size = j'.size }
  after_write-IsJustified w p oops e j = j

  -- Who goes to sleep after its look has seen that there is nothing for it.
  pub look_to_read-IsJustified :
      (w : Waiters) (p : Process) → IsJustified len w → IsJustified len (look_to_read w p)
  look_to_read-IsJustified w p j = elim (Bool-cases (is_empty w.dev)) [
    | inr some_bytes ↦
        rw some_bytes (record { readers = j.readers; writers = j.writers; size = j.size })
    | inl empty ↦
        rw empty (record { readers = inr (inl empty); writers = j.writers; size = j.size })
  ]

  pub look_to_write-IsJustified :
      (w : Waiters) (p : Process) → IsJustified len w → IsJustified len (look_to_write w p)
  look_to_write-IsJustified w p j = elim (Bool-cases (is_full w.dev)) [
    | inr some_room ↦
        rw some_room (record { readers = j.readers; writers = j.writers; size = j.size })
    | inl full ↦ rw full (record { readers = j.readers; writers = inr (inl full); size = j.size })
  ]

  pub wake-IsJustified :
      (wake_up : WakeUp) (w : Waiters) (i : ℕ) (q : Wake)
      → WakesAll wake_up
      → get_elem? w.due i ≡ some q
      → IsJustified len w
      → IsJustified len (wake wake_up (record w { due = removed i w.due }) q)
  wake-IsJustified wake_up w i inq all at j = record {
    readers = inl (ap (λ (ps : List Process × List Process). ps.1) (all w.readers));
    writers = rw (is_due-removed is_outq i w.due inq at refl) j.writers;
    size = j.size;
  }
  wake-IsJustified wake_up w i outq all at j = record {
    readers = rw (is_due-removed is_inq i w.due outq at refl) j.readers;
    writers = inl (ap (λ (ps : List Process × List Process). ps.1) (all w.writers));
    size = j.size;
  }
  wake-IsJustified wake_up w i openq all at j = record {
    readers = rw (is_due-removed is_inq i w.due openq at refl) j.readers;
    writers = rw (is_due-removed is_outq i w.due openq at refl) j.writers;
    size = j.size;
  }
  wake-IsJustified wake_up w i sigio all at j = record {
    readers = rw (is_due-removed is_inq i w.due sigio at refl) j.readers;
    writers = rw (is_due-removed is_outq i w.due sigio at refl) j.writers;
    size = j.size;
  }
