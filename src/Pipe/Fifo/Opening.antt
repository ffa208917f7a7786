-- ===== src/Pipe/Fifo/Opening.antt =====
-- Opening the pipe device with the proper behaviour (scull/pipe.c), and the opens that wait for a writer.
use ldd3_workshop.Prelude.{
  ℕ, suc, ◌+◌, ◌^◌, ◌≤◌, ◌<◌, ◌≡◌, ◌⊎◌, inl, inr, refl, ap, Bool, true, false, some, [], ◌∷◌, arith,
  if◌then◌else◌, Option-cases, Bool-cases, ◌==◌,
}
use ldd3_workshop.Kernel.{ok, err, eagain, erestartsys, Kernel, IsLinux}
use ldd3_workshop.Pipe.Device.{
  Buffer, ScullPipe, openq, proper_fifo_beh_idx, File, Session, unlock, returned, asleep,
}
use ldd3_workshop.Pipe.Io.{sleep_while}
use ldd3_workshop.Pipe.Ring.{contents, waiting, fill, tabulate}
use ldd3_workshop.Pipe.Open.{
  Kmalloc, emptied, no_writers, wait_for_writers, open_to_read, open_to_write, scull_p_proper_open,
  scull_p_open,
}
use ldd3_workshop.Pipe.History.{entering, IsFifo}
use ldd3_workshop.Pipe.Users.{no_user, readers_in, writers_in}
use ldd3_workshop.Pipe.Release.{recounted}
use ldd3_workshop.Pipe.Fifo.{FifoUsers, opens, opened_as, after_open, event, IsSingle}
use ldd3_workshop.Pipe.Fifo.Invariant.{
  IsGenerous, IsCounted, later-IsCounted, writer_there, counts-small,
}

module _ (k : Kernel) (kmalloc : Kmalloc) (len : ℕ) (linux : IsLinux k)
    (generous : IsGenerous kmalloc) (some_len : 0 < len) (small : len < 2 ^ 63) where
  -- An open for reading that gets the lock.
  open_reader :
      (file : File) (s : Session)
      → s.dev.idx ≡ proper_fifo_beh_idx
      → s.dev.readers < 2 ^ 63
      → file.mode_read ≡ true
      → let s' = unlock (record s { dev = record s.dev { readers = s.dev.readers + 1 } }) in
        let r = scull_p_open k kmalloc len file false [] s in
        (r ≡ returned (err eagain) (unlock s))
        ⊎ ((r ≡ asleep s') ⊎ ((no_writers s.dev ≡ false) × (r ≡ returned (ok 0) s')))
  unfolding scull_p_open scull_p_proper_open open_to_read wait_for_writers sleep_while
  open_reader file s proper few mode = elim (Bool-cases (no_writers s.dev)) [
    | inl nobody ↦ elim (Bool-cases file.nonblock) [
      | inl nonblock ↦ inl (ground arith)
      | inr blocks ↦ inr (inl (ground arith))
    ]
    | inr somebody ↦ inr (inr (somebody, ground (arith, linux.opens)))
  ]

  abbrev written : Session → Buffer → Session
  written s b = unlock (record s {
    dev = emptied len (record s.dev { writers = s.dev.writers + 1; buf = some b });
    wakes = if s.dev.readers == 0 then s.wakes else openq ∷ s.wakes;
  })

  -- An open for writing that gets the lock.
  open_writer :
      (file : File) (s : Session)
      → s.dev.idx ≡ proper_fifo_beh_idx
      → s.dev.writers < 2 ^ 63
      → file.mode_read ≡ false
      → ((b : Buffer) → s.dev.buf ≡ some b → len ≤ b.size)
      → (b : Buffer) × (len ≤ b.size)
        × (scull_p_open k kmalloc len file false [] s ≡ returned (ok 0) (written s b))
  unfolding scull_p_open scull_p_proper_open open_to_write
  open_writer file s proper few mode fits = elim (Option-cases s.dev.buf) [
    | inr (c, old) ↦ (c, fits c old, ground (arith, linux.opens))
    | inl new ↦
        (let (b, grant, size) = generous len in
          (b, omega (arith, size), ground (arith, linux.opens, grant)))
  ]

  opened-IsFifo :
      (d : ScullPipe) (b : Buffer)
      → len ≤ b.size
      → IsFifo (record { dev = emptied len (record d { buf = some b }); sent = []; received = [] })
  unfolding contents waiting fill tabulate
  opened-IsFifo d b fits = record {
    is_open = record {
      some_room = some_len;
      small = small;
      allocated = fits;
      end_is = refl;
      rp_in = some_len;
      wp_in = some_len;
    };
    in_order = refl;
  }

  opens_reader-IsCounted :
      (n : ℕ) (u : FifoUsers) (file : File)
      → IsCounted len n u
      → n < 2 ^ 62
      → file.mode_read ≡ true
      → file.mode_write ≡ false
      → IsCounted len (suc n) (
          after_open u file
            (scull_p_open k kmalloc len file false [] (entering u.history.dev no_user)))
  unfolding readers_in writers_in
  opens_reader-IsCounted n u file i bound reading no_writing =
      let out =
        open_reader file (entering u.history.dev no_user) i.proper (counts-small len n u i bound).0
          reading in
      elim out [
        | inl again ↦ rw again (later-IsCounted len n u i)
        | inr (inl sleeps) ↦ rw sleeps (record {
          proper = i.proper;
          readers = ground (arith, i.readers);
          writers = i.writers;
          modes = i.modes;
          waiting_modes = ((reading, no_writing), i.waiting_modes);
          few = omega (arith, i.few);
          room = i.room;
          queue =
              λ used. let (fifo, at_len) = i.queue used in (recounted u.history _ _ _ fifo, at_len);
        })
        | inr (inr (somebody, e)) ↦
            (let s' = unlock (record (entering u.history.dev no_user) {
              dev = record u.history.dev { readers = u.history.dev.readers + 1 };
            }) in
              rw (e, ap (opened_as u file s') reading)
                (record {
                  proper = i.proper;
                  readers = ground (arith, i.readers, reading);
                  writers = ground (arith, i.writers, no_writing);
                  modes = (ground (arith, reading), i.modes);
                  waiting_modes = i.waiting_modes;
                  few = omega (arith, i.few);
                  room = i.room;
                  queue = λ _.
                      let (fifo, at_len) = i.queue (writer_there len n u i somebody) in
                      (recounted u.history _ _ _ fifo, at_len);
                }))
      ]

  opens_writer-IsCounted :
      (n : ℕ) (u : FifoUsers) (file : File)
      → IsCounted len n u
      → n < 2 ^ 62
      → file.mode_read ≡ false
      → file.mode_write ≡ true
      → IsCounted len (suc n) (
          after_open u file
            (scull_p_open k kmalloc len file false [] (entering u.history.dev no_user)))
  unfolding readers_in writers_in
  opens_writer-IsCounted n u file i bound no_reading writing =
      let (b, fits, e) =
        open_writer file (entering u.history.dev no_user) i.proper (counts-small len n u i bound).1
          no_reading i.room in
      rw (e, ap (opened_as u file (written (entering u.history.dev no_user) b)) no_reading)
        (record {
          proper = i.proper;
          readers = ground (arith, i.readers, no_reading);
          writers = ground (arith, i.writers, writing);
          modes = (ground (arith, writing, no_reading), i.modes);
          waiting_modes = i.waiting_modes;
          few = omega (arith, i.few);
          room = λ c e'. let same : some b ≡ some c = e' in ground (arith, same, fits);
          queue = λ _. (
            opened-IsFifo (record u.history.dev { writers = u.history.dev.writers + 1 }) b fits,
            refl,
          );
        })

  interrupted_open :
      (file : File) (s : Session)
      → s.dev.idx ≡ proper_fifo_beh_idx
      → scull_p_open k kmalloc len file true [] s ≡ returned (err erestartsys) s
  unfolding scull_p_open scull_p_proper_open
  interrupted_open file s proper = ground arith

  pub opens-IsCounted :
      (n : ℕ) (u : FifoUsers) (file : File) (interrupted : Bool)
      → IsCounted len n u
      → n < 2 ^ 62
      → IsSingle file
      → IsCounted len (suc n) (event k kmalloc len u (opens file interrupted))
  unfolding event
  opens-IsCounted n u file true i bound mode =
      rw (interrupted_open file (entering u.history.dev no_user) i.proper, event)
        (later-IsCounted len n u i)
  opens-IsCounted n u file false i bound (inl (r, w)) = opens_reader-IsCounted n u file i bound r w
  opens-IsCounted n u file false i bound (inr (r, w)) = opens_writer-IsCounted n u file i bound r w
