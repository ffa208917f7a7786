-- ===== src/Pipe/Calls.antt =====
-- What a caller of `scull_p_read`, `scull_p_write` and `scull_p_poll` (scull/pipe.c) may rely on.
use ldd3_workshop.Prelude.{
  ℕ, ◌≡◌, ◌≢◌, ◌⊎◌, ◌↔◌, inl, inr, refl, sym, ◌∙◌, Bool, true, false, List, [], arith,
  if◌then◌else◌, Bool-cases,
}
use ldd3_workshop.Kernel.{ok, err, eagain, Kernel, IsLinux}
use ldd3_workshop.Pipe.Device.{ScullPipe, File, Session, lock, unlock, Wakeup, returned, spacefree}
use ldd3_workshop.Pipe.Io.{
  is_empty, is_full, read_wait, sleep_while, scull_p_read, scull_getwritespace, scull_p_write,
  scull_p_poll, take_out, put_in,
}
use ldd3_workshop.Pipe.Transfer.{Took, Put}
use ldd3_workshop.Pipe.Handlers.{
  Seen, AllOpen, sleep_while-Settled, IsClean, is_at_end, reading, writing, reading-IsClean,
  writing-IsClean, reading-Took, writing-Put,
}

read_is_reading :
    (k : Kernel) (file : File) (ws : List Wakeup) (s : Session) (buf count : ℕ)
    → scull_p_read k file false ws s buf count ≡ (
        if is_at_end s.dev
        then returned (ok 0) (unlock s)
        else reading k buf count (read_wait file ws (lock s)))
unfolding scull_p_read
read_is_reading k file ws s buf count = refl

write_is_writing :
    (k : Kernel) (file : File) (ws : List Wakeup) (s : Session) (buf count : ℕ)
    → scull_p_write k file false ws s buf count
      ≡ writing k buf count (scull_getwritespace file ws (lock s))
unfolding scull_p_write
write_is_writing k file ws s buf count = refl

-- A read of a pipe device, with any sleeps between, that returns `n`: it either is at the end of
-- file and returns 0, having changed nothing, or takes the first `n` bytes that wait in a device
-- that it has seen, which is not empty: they are at `buf` in user memory, the others wait on,
-- `n` is the smaller of `count` and what stands in one piece, the lock is released, and the
-- processes that wait to write are woken.
pub scull_p_read-Took :
    (k : Kernel) (file : File) (ws : List Wakeup) (s : Session) (buf count n : ℕ) (s' : Session)
    → IsLinux k
    → AllOpen ws s.dev
    → scull_p_read k file false ws s buf count ≡ returned (ok n) s'
    → ((is_at_end s.dev ≡ true) × (n ≡ 0) × (s' ≡ unlock s))
      ⊎ ((d : ScullPipe) × Seen ws s.dev d
          × (d.rp ≢ d.wp)
          × Took (record s { dev = d; holding = true }) buf count n s')
unfolding read_wait
scull_p_read-Took k file ws s buf count n s' linux v e = elim (Bool-cases (is_at_end s.dev)) [
  | inl end ↦
      (let e' : returned (ok 0) (unlock s) ≡ returned (ok n) s' =
          rw end at (sym (read_is_reading k file ws s buf count) ∙ e) in
        inl (end, ground arith, ground arith))
  | inr more ↦
      (let e' : reading k buf count (read_wait file ws (lock s)) ≡ returned (ok n) s' =
          rw more at (sym (read_is_reading k file ws s buf count) ∙ e) in
        inr (
          reading-Took k linux file ws (lock s) buf count n s' _ v
            (sleep_while-Settled is_empty file ws (lock s) refl) e'))
]

-- A write to a pipe device, with any sleeps between, that returns `n`: the `n` first bytes of the
-- user stand behind those that wait in a device that the call has seen, which is not full; `n` is
-- the smallest of `count`, the free space and what is free in one piece, the lock is released, and
-- the processes that wait to read are woken.
pub scull_p_write-Put :
    (k : Kernel) (file : File) (ws : List Wakeup) (s : Session) (buf count n : ℕ) (s' : Session)
    → IsLinux k
    → AllOpen ws s.dev
    → scull_p_write k file false ws s buf count ≡ returned (ok n) s'
    → (d : ScullPipe) × Seen ws s.dev d
      × (spacefree d ≢ 0)
      × Put (record s { dev = d; holding = true }) buf count n s'
unfolding scull_getwritespace
scull_p_write-Put k file ws s buf count n s' linux v e =
    writing-Put k linux file ws (lock s) buf count n s' _ v
      (sleep_while-Settled is_full file ws (lock s) refl)
      (sym (write_is_writing k file ws s buf count) ∙ e)

-- Where the device of the call, and every device that it finds when a sleep ends, has a buffer of at
-- least `buf_len` bytes, with `buf_len` positive and below 2 ^ 63, the end there and both pointers
-- inside: however a read or a write ends, by a return of
-- any kind or still asleep, this process does not hold the lock, and no byte outside the buffer was
-- touched.
pub calls-IsClean :
    (k : Kernel) (file : File) (interrupted : Bool) (ws : List Wakeup) (s : Session) (buf count : ℕ)
    → IsLinux k
    → AllOpen ws s.dev
    → s.holding ≡ false
    → IsClean (scull_p_read k file interrupted ws s buf count)
      × IsClean (scull_p_write k file interrupted ws s buf count)
unfolding scull_p_read scull_p_write
calls-IsClean k file true ws s buf count linux v h = (h, h)
calls-IsClean k file false ws s buf count linux v h = (
  elim (Bool-cases (is_at_end s.dev)) [
    | inl end ↦ rw (read_is_reading k file ws s buf count, end) refl
    | inr more ↦
        rw (read_is_reading k file ws s buf count, more)
          (unfold read_wait in
            reading-IsClean k linux file ws (lock s) buf count _ v
              (sleep_while-Settled is_empty file ws (lock s) refl))
  ],
  rw (write_is_writing k file ws s buf count) (
      unfold scull_getwritespace in
      writing-IsClean k linux file ws (lock s) buf count _ v
        (sleep_while-Settled is_full file ws (lock s) refl)),
)

take_out-ne-eagain :
    (k : Kernel) (s t : Session) (buf count : ℕ) → take_out k s buf count ≢ returned (err eagain) t
unfolding take_out
take_out-ne-eagain k s t buf count e = ground arith

put_in-ne-eagain :
    (k : Kernel) (s t : Session) (buf count : ℕ) → put_in k s buf count ≢ returned (err eagain) t
unfolding put_in
put_in-ne-eagain k s t buf count e = ground arith

-- What `poll` says is what a nonblocking call then meets: where it does not report a hang-up,
-- POLLIN is clear exactly if a read returns EAGAIN at once, and POLLOUT is clear exactly if a write
-- does.
pub poll_agrees :
    (k : Kernel) (file : File) (s : Session) (buf count : ℕ)
    → file.nonblock ≡ true
    → (scull_p_poll s.dev).pollhup ≡ false
    → let m = scull_p_poll s.dev in
      let again = returned (err eagain) (unlock s) in
      ((m.pollin ≡ false) ↔ (scull_p_read k file false [] s buf count ≡ again))
      × ((m.pollout ≡ false) ↔ (scull_p_write k file false [] s buf count ≡ again))
unfolding scull_p_poll scull_p_read scull_p_write read_wait scull_getwritespace sleep_while
poll_agrees k file s buf count nb up = (
  (λ h. ground arith, λ h. ground (arith, take_out-ne-eagain k (lock s) (unlock s) buf count)),
  (λ h. ground arith, λ h. ground (arith, put_in-ne-eagain k (lock s) (unlock s) buf count)),
)
