-- ===== src/Pipe/Io.antt =====
-- `scull_p_read`, `scull_p_write` and `scull_p_poll` of scull/pipe.c.
use ldd3_workshop.Prelude.{
  ℕ, ◌+◌, ◌-◌, Bool, true, false, not, none, some, List, [], ◌∷◌, ◌&&◌, ltb, leb, ◌==◌,
  if◌then◌else◌, sub64, min,
}
use ldd3_workshop.Kernel.{Bytes, ok, err, eagain, efault, erestartsys, Kernel}
use ldd3_workshop.Pipe.Device.{
  ScullPipe, proper_fifo_beh_idx, File, inq, outq, sigio, Session, lock, unlock, Wakeup, signal,
  lock_signal, resumed, Waited, ready, leave, sleeping, Outcome, returned, asleep, oops, spacefree,
  in_buffer,
}

-- The code where the loop's test holds: the lock is released, and only a blocking file goes on.
abbrev pub blocked : File → Session → Waited → Waited
blocked file s rest = if file.nonblock then leave (err eagain) (unlock s) else rest

-- A loop that sleeps with the lock released while `stuck` holds of the device. The list says how
-- its sleeps end, on devices that may be any; the entry to the queue and the look from there, without
-- the lock, are moves of their own in Pipe/Sleepers.
unfoldable pub sleep_while : (ScullPipe → Bool) → File → List Wakeup → Session → Waited
sleep_while stuck file [] s = if stuck s.dev then blocked file s (sleeping (unlock s)) else ready s
sleep_while stuck file (signal ∷ ws) s =
    if stuck s.dev then blocked file s (leave (err erestartsys) (unlock s)) else ready s
sleep_while stuck file (lock_signal ∷ ws) s =
    if stuck s.dev then blocked file s (leave (err erestartsys) (unlock s)) else ready s
sleep_while stuck file (resumed d ∷ ws) s =
    let again = sleep_while stuck file ws (lock (record s { dev = d })) in
    if stuck s.dev then blocked file s again else ready s

abbrev pub is_empty : ScullPipe → Bool
is_empty dev = dev.rp == dev.wp

-- Lines 161 to 171: sleep while the buffer is empty.
unfoldable pub read_wait : File → List Wakeup → Session → Waited
read_wait = sleep_while is_empty

-- The pointer after `n` bytes: at the end of the buffer it goes back to the start.
abbrev pub advance : ScullPipe → ℕ → ℕ → ℕ
advance dev p n = if p + n == dev.end then 0 else p + n

module _ (k : Kernel) where
  -- Lines 172 to 192, with the lock held and data available.
  unfoldable pub take_out : Session → ℕ → ℕ → Outcome
  take_out s buf count =
      let dev = s.dev in
      let n = min count (if ltb dev.rp dev.wp then sub64 dev.wp dev.rp else sub64 dev.end dev.rp) in
      elim dev.buf [
        | none ↦ oops
        | some b ↦
            (let (left, user') = k.copy_to_user s.user buf (λ i. b.bytes (dev.rp + i)) n in
              let s' = record s { user = user' } in
              if in_buffer b dev.rp n
              then if left == 0
                then returned (ok n) (record (unlock s') {
                  dev = record dev { rp = advance dev dev.rp n };
                  wakes = outq ∷ s.wakes;
                })
                else returned (err efault) (unlock s')
              else oops)
      ]

  -- `interrupted` is the result of the first `mutex_lock_interruptible`, and the list says how the
  -- sleeps end that the call makes.
  unfoldable pub scull_p_read : File → Bool → List Wakeup → Session → ℕ → ℕ → Outcome
  scull_p_read file interrupted ws s buf count =
      if interrupted
      then returned (err erestartsys) s
      else if (s.dev.idx == proper_fifo_beh_idx) && (is_empty s.dev && (s.dev.writers == 0))
      then returned (ok 0) (unlock (lock s))
      else elim (read_wait file ws (lock s)) [
        | ready s' ↦ take_out s' buf count
        | leave r s' ↦ returned r s'
        | sleeping s' ↦ asleep s'
      ]

abbrev pub is_full : ScullPipe → Bool
is_full dev = spacefree dev == 0

-- `scull_getwritespace`: sleep while the buffer is full.
unfoldable pub scull_getwritespace : File → List Wakeup → Session → Waited
scull_getwritespace = sleep_while is_full

-- The bytes `new` from `off` on.
abbrev pub splice : Bytes → ℕ → Bytes → Bytes
splice old off new j = if leb off j then new (j - off) else old j

abbrev pub signals : List ℕ → Bool
signals [] = false
signals (_ ∷ _) = true

module _ (k : Kernel) where
  -- Lines 244 to 263, with the lock held and space free.
  unfoldable pub put_in : Session → ℕ → ℕ → Outcome
  put_in s buf count =
      let dev = s.dev in
      let most = min count (spacefree dev) in
      let n =
        min most
          (if leb dev.rp dev.wp then sub64 dev.end dev.wp else sub64 (sub64 dev.rp dev.wp) 1) in
      elim dev.buf [
        | none ↦ oops
        | some b ↦
            (let (left, new) = k.copy_from_user s.user (λ i. b.bytes (dev.wp + i)) buf n in
              let dev' = record dev {
                buf = some (record b { bytes = splice b.bytes dev.wp new });
              } in
              let s' = record (unlock s) { dev = dev' } in
              if in_buffer b dev.wp n
              then if left == 0
                then returned (ok n) (record s' {
                  dev = record dev' { wp = advance dev dev.wp n };
                  wakes = if signals dev.async_q then sigio ∷ inq ∷ s.wakes else inq ∷ s.wakes;
                })
                else returned (err efault) s'
              else oops)
      ]

  unfoldable pub scull_p_write : File → Bool → List Wakeup → Session → ℕ → ℕ → Outcome
  scull_p_write file interrupted ws s buf count =
      if interrupted
      then returned (err erestartsys) s
      else elim (scull_getwritespace file ws (lock s)) [
        | ready s' ↦ put_in s' buf count
        | leave r s' ↦ returned r s'
        | sleeping s' ↦ asleep s'
      ]

-- The bits of a poll mask: POLLIN | POLLRDNORM, POLLOUT | POLLWRNORM, POLLERR | POLLHUP.
pub record PollMask : Type 0 where
  pub pollin : Bool
  pub pollout : Bool
  pub pollhup : Bool

unfoldable pub scull_p_poll : ScullPipe → PollMask
scull_p_poll dev =
    if (dev.idx == proper_fifo_beh_idx) && (dev.writers == 0)
    then record { pollin = false; pollout = false; pollhup = true }
    else record {
      pollin = not (dev.rp == dev.wp);
      pollout = not (spacefree dev == 0);
      pollhup = false;
    }
