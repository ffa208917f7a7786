-- ===== src/Pipe/Counts.antt =====
-- Opening and closing the pipe device of scull/pipe.c: the buffer and the counts of its users.
use ldd3_workshop.Prelude.{
  ℕ, ◌+◌, ◌^◌, ◌<◌, ◌≤◌, ◌≡◌, ◌≢◌, inl, inr, refl, ap, Bool, true, false, some, List, [], ◌∷◌,
  arith, Option-cases,
}
use ldd3_workshop.Kernel.{ok, err, erestartsys, Kernel, IsLinux}
use ldd3_workshop.Pipe.Device.{
  Buffer, ScullPipe, proper_fifo_beh_idx, File, Session, lock, unlock, Wakeup, signal, lock_signal,
  resumed, ready, returned, oops, spacefree,
}
use ldd3_workshop.Pipe.Io.{sleep_while, is_full, scull_p_write, scull_getwritespace, put_in}
use ldd3_workshop.Pipe.Ring.{IsOpen, size_of, contents, waiting, fill, tabulate}
use ldd3_workshop.Pipe.Open.{
  Kmalloc, counted, emptied, scull_p_open, open_plainly, scull_p_proper_open, open_to_read,
  wait_for_writers, scull_p_release,
}

-- The documented behaviour of `kmalloc`: a buffer has the size asked for.
abbrev pub IsKmalloc : Kmalloc → Type 0
IsKmalloc kmalloc = (n : ℕ) (b : Buffer) → kmalloc n ≡ some b → b.size ≡ n

-- Opening a device other than the one with the proper behaviour succeeds unless memory is short.
-- It leaves the device open and empty, also where bytes waited in it, and counts the file once for
-- each of its modes. A buffer that is there must hold `scull_p_len` bytes.
pub scull_p_open-IsOpen :
    (k : Kernel) (kmalloc : Kmalloc) (len : ℕ) (file : File) (s : Session) (b : Buffer)
    → IsLinux k
    → IsKmalloc kmalloc
    → kmalloc len ≡ some b
    → 0 < len
    → len < 2 ^ 63
    → ((c : Buffer) → s.dev.buf ≡ some c → len ≤ c.size)
    → s.dev.idx ≢ proper_fifo_beh_idx
    → (s' : Session) × (scull_p_open k kmalloc len file false [] s ≡ returned (ok 0) s')
      × IsOpen s'.dev
      × (contents s'.dev ≡ [])
      × (s'.dev.readers ≡ (counted file s.dev).readers)
      × (s'.dev.writers ≡ (counted file s.dev).writers)
      × (s'.holding ≡ false)
unfolding scull_p_open open_plainly contents waiting fill tabulate
scull_p_open-IsOpen k kmalloc len file s b linux sized grant pos small fits other =
    elim (Option-cases s.dev.buf) [
      | inl new ↦ (
        opened (record s.dev { buf = some b }),
        ground (arith, linux.opens),
        ground (arith, sized len b grant),
        refl,
        refl,
        refl,
        refl,
      )
      | inr (c, old) ↦ (
        opened s.dev,
        ground (arith, linux.opens),
        ground (arith, fits c old, ap size_of old),
        refl,
        refl,
        refl,
        refl,
      )
    ]
  where
    opened : ScullPipe → Session
    opened d = unlock (record s { dev = counted file (emptied len d) })

-- On such a device, a release after an open gives back the counts of readers and writers.
pub release-open :
    (k : Kernel) (kmalloc : Kmalloc) (len : ℕ) (file : File) (s s' : Session)
    → IsLinux k
    → s.dev.idx ≢ proper_fifo_beh_idx
    → s.dev.readers < 2 ^ 63
    → s.dev.writers < 2 ^ 63
    → scull_p_open k kmalloc len file false [] s ≡ returned (ok 0) s'
    → let d = (scull_p_release k file false s').1.dev in
      (d.readers ≡ s.dev.readers) × (d.writers ≡ s.dev.writers)
unfolding scull_p_open open_plainly scull_p_release
release-open k kmalloc len file s s' linux other hr hw e = elim (Option-cases s.dev.buf) [
  | inl new ↦ elim (Option-cases (kmalloc len)) [
    | inl short ↦ ground arith
    | inr (b, grant) ↦ ground arith
  ]
  | inr (c, old) ↦ ground arith
]

-- On the device with the proper behaviour, an open for reading and writing counts the file as a
-- reader only, while its release takes it off both counts: the open and the release together take
-- one writer away, who still has the device open.
pub release-open_proper :
    (k : Kernel) (kmalloc : Kmalloc) (len : ℕ) (file : File) (s s' : Session)
    → IsLinux k
    → s.dev.idx ≡ proper_fifo_beh_idx
    → s.dev.readers < 2 ^ 63
    → s.dev.writers < 2 ^ 63
    → 0 < s.dev.writers
    → file.mode_read ≡ true
    → file.mode_write ≡ true
    → scull_p_open k kmalloc len file false [] s ≡ returned (ok 0) s'
    → let d = (scull_p_release k file false s').1.dev in
      (d.readers ≡ s.dev.readers) × (d.writers + 1 ≡ s.dev.writers)
unfolding scull_p_open scull_p_proper_open open_to_read wait_for_writers sleep_while scull_p_release
release-open_proper k kmalloc len file s s' linux proper hr hw pos mr mw e = ground arith

-- A reader of that device whose wait for a writer is interrupted stays counted: its open fails, so
-- it is never released.
pub interrupted_open_leaks :
    (k : Kernel) (kmalloc : Kmalloc) (len : ℕ) (file : File) (ws : List Wakeup) (s : Session)
    → s.dev.idx ≡ proper_fifo_beh_idx
    → s.dev.readers < 2 ^ 63
    → s.dev.writers ≡ 0
    → file.mode_read ≡ true
    → file.nonblock ≡ false
    → (s' : Session) × (scull_p_open k kmalloc len file false (signal ∷ ws) s
        ≡ returned (err erestartsys) s')
      × (s'.dev.readers ≡ s.dev.readers + 1)
unfolding scull_p_open scull_p_proper_open open_to_read wait_for_writers sleep_while
interrupted_open_leaks k kmalloc len file ws s proper hr none_open mr bl =
    (unlock (record s { dev = record s.dev { readers = s.dev.readers + 1 } }), ground arith, refl)

sleep_while_ready :
    (stuck : ScullPipe → Bool) (file : File) (ws : List Wakeup) (s : Session)
    → stuck s.dev ≡ false
    → sleep_while stuck file ws s ≡ ready s
unfolding sleep_while
sleep_while_ready stuck file [] s go = rw go
sleep_while_ready stuck file (signal ∷ ws) s go = rw go
sleep_while_ready stuck file (lock_signal ∷ ws) s go = rw go
sleep_while_ready stuck file (resumed d ∷ ws) s go = rw go

-- Opening a device after `scull_p_len` has grown past the size of its buffer leaves it with a
-- length that the buffer does not have, and a write of more bytes than the buffer has, and than
-- `scull_p_len` allows, then goes past its end.
pub grown_len_overflows :
    (k : Kernel) (kmalloc : Kmalloc) (len : ℕ) (file : File) (s : Session) (b : Buffer)
    (ws : List Wakeup) (buf count : ℕ)
    → IsLinux k
    → s.dev.idx ≢ proper_fifo_beh_idx
    → s.dev.buf ≡ some b
    → b.size + 1 < len
    → len < 2 ^ 63
    → b.size < count
    → (s' : Session) × (scull_p_open k kmalloc len file false [] s ≡ returned (ok 0) s')
      × (scull_p_write k file false ws s' buf count ≡ oops)
unfolding scull_p_open open_plainly scull_p_write scull_getwritespace sleep_while put_in spacefree
grown_len_overflows k kmalloc len file s b ws buf count linux other at big small more =
    let s' = unlock (record s { dev = counted file (emptied len s.dev) }) in
    let room : is_full s'.dev ≡ false = ground arith in
    (
      s',
      ground (arith, linux.opens),
      rw (sleep_while_ready is_full file ws (lock s') room) (ground arith),
    )
