-- ===== src/Pipe/Open.antt =====
-- `scull_p_open`, `scull_p_proper_open` and `scull_p_release` of scull/pipe.c.
use ldd3_workshop.Prelude.{
  ℕ, Bool, false, Option, none, some, List, ◌∷◌, ◌&&◌, ◌==◌, if◌then◌else◌, add64, sub64,
}
use ldd3_workshop.Kernel.{Ret, ok, err, enomem, eagain, erestartsys, Kernel}
use ldd3_workshop.Pipe.Device.{
  Buffer, ScullPipe, proper_fifo_beh_idx, File, openq, Session, lock, unlock, Wakeup, Waited, ready,
  leave, sleeping, Outcome, returned, asleep,
}
use ldd3_workshop.Pipe.Io.{sleep_while}

-- `kmalloc`, from the size asked for: `none` for a NULL pointer.
abbrev pub Kmalloc : Type 0
Kmalloc = ℕ → Option Buffer

-- The device with a buffer, which is allocated where the pointer is NULL.
abbrev pub with_buffer : Kmalloc → ℕ → ScullPipe → Option ScullPipe
with_buffer kmalloc scull_p_len dev = elim dev.buf [
  | some b ↦ some dev
  | none ↦ elim (kmalloc scull_p_len) [ none ↦ none | some b ↦ some (record dev { buf = some b }) ]
]

-- The buffer taken to be empty, and `scull_p_len` bytes long.
abbrev pub emptied : ℕ → ScullPipe → ScullPipe
emptied scull_p_len dev = record dev { buf_len = scull_p_len; end = scull_p_len; rp = 0; wp = 0 }

abbrev pub counted : File → ScullPipe → ScullPipe
counted file dev = record dev {
  readers = if file.mode_read then add64 dev.readers 1 else dev.readers;
  writers = if file.mode_write then add64 dev.writers 1 else dev.writers;
}

abbrev pub no_writers : ScullPipe → Bool
no_writers dev = dev.writers == 0

module _ (k : Kernel) (kmalloc : Kmalloc) (scull_p_len : ℕ) where
  -- The loop of lines 40 to 48 does not look at O_NONBLOCK.
  unfoldable pub wait_for_writers : File → List Wakeup → Session → Waited
  wait_for_writers file = sleep_while no_writers (record file { nonblock = false })

  unfoldable pub open_to_read : File → List Wakeup → Session → Outcome
  open_to_read file ws s =
      if file.nonblock && no_writers s.dev
      then returned (err eagain) (unlock s)
      else elim (wait_for_writers file ws
          (record s { dev = record s.dev { readers = add64 s.dev.readers 1 } })) [
            | ready s' ↦ returned k.nonseekable_open (unlock s')
            | leave r s' ↦ returned r s'
            | sleeping s' ↦ asleep s'
          ]

  unfoldable pub open_to_write : Session → Outcome
  open_to_write s =
      let dev = record s.dev { writers = add64 s.dev.writers 1 } in
      elim (with_buffer kmalloc scull_p_len dev) [
        | none ↦ returned (err enomem) (unlock (record s { dev = dev }))
        | some d ↦ returned k.nonseekable_open (
            unlock (record s {
              dev = emptied scull_p_len d;
              wakes = if d.readers == 0 then s.wakes else openq ∷ s.wakes;
            }))
      ]

  unfoldable pub scull_p_proper_open : File → Bool → List Wakeup → Session → Outcome
  scull_p_proper_open file interrupted ws s =
      if interrupted
      then returned (err erestartsys) s
      else if file.mode_read
      then open_to_read file ws (lock s)
      else open_to_write (lock s)

  unfoldable pub open_plainly : File → Session → Outcome
  open_plainly file s = elim (with_buffer kmalloc scull_p_len s.dev) [
    | none ↦ returned (err enomem) (unlock s)
    | some d ↦
        returned k.nonseekable_open
          (unlock (record s { dev = counted file (emptied scull_p_len d) }))
  ]

  unfoldable pub scull_p_open : File → Bool → List Wakeup → Session → Outcome
  scull_p_open file interrupted ws s =
      if s.dev.idx == proper_fifo_beh_idx
      then scull_p_proper_open file interrupted ws s
      else if interrupted
      then returned (err erestartsys) s
      else open_plainly file (lock s)

-- `scull_p_fasync`, on the device alone.
abbrev pub scull_p_fasync : Kernel → File → Bool → ScullPipe → ScullPipe
scull_p_fasync k file add dev = record dev { async_q = k.fasync_helper file.id add dev.async_q }

-- The counts without one opening of the file.
abbrev pub uncounted : File → ScullPipe → ScullPipe
uncounted file dev = record dev {
  readers = if file.mode_read then sub64 dev.readers 1 else dev.readers;
  writers = if file.mode_write then sub64 dev.writers 1 else dev.writers;
}

-- The buffer is freed when nobody has the device open.
abbrev pub freed : ScullPipe → ScullPipe
freed dev = if add64 dev.readers dev.writers == 0 then record dev { buf = none } else dev

unfoldable pub scull_p_release : Kernel → File → Bool → Session → Ret × Session
scull_p_release k file interrupted s =
    let s' = record s { dev = scull_p_fasync k file false s.dev } in
    if interrupted
    then (err erestartsys, s')
    else (ok 0, unlock (record s' { dev = freed (uncounted file s'.dev) }))
