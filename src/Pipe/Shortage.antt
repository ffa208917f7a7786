-- ===== src/Pipe/Shortage.antt =====
-- An open of the device with the proper behaviour (scull/pipe.c) that is short of memory.
use ldd3_workshop.Prelude.{ℕ, ◌≡◌, ◌≢◌, refl, true, false, none, [], arith}
use ldd3_workshop.Kernel.{ok, err, enomem, Kernel, IsLinux}
use ldd3_workshop.Pipe.Device.{proper_fifo_beh_idx, File, Session, lock, unlock, returned, oops}
use ldd3_workshop.Pipe.Io.{sleep_while, read_wait, take_out, scull_p_read}
use ldd3_workshop.Pipe.Open.{
  Kmalloc, wait_for_writers, open_to_read, open_to_write, scull_p_proper_open, scull_p_open,
}

-- Nobody has the device open, and bytes were left in it when it was last closed. An open for writing
-- that gets no memory fails with ENOMEM, but stays counted as a writer. So the open of a reader then
-- goes through, and its read copies from the buffer that was freed.
pub failed_open_faults :
    (k : Kernel) (kmalloc : Kmalloc) (len : ℕ) (writer reader : File) (s : Session) (buf count : ℕ)
    → IsLinux k
    → s.dev.idx ≡ proper_fifo_beh_idx
    → s.dev.buf ≡ none
    → s.dev.rp ≢ s.dev.wp
    → s.dev.readers ≡ 0
    → s.dev.writers ≡ 0
    → kmalloc len ≡ none
    → writer.mode_read ≡ false
    → reader.mode_read ≡ true
    → (s₁ : Session) × (s₂ : Session) × (scull_p_open k kmalloc len writer false [] s
        ≡ returned (err enomem) s₁)
      × (s₁.dev.writers ≡ 1)
      × (scull_p_open k kmalloc len reader false [] s₁ ≡ returned (ok 0) s₂)
      × (scull_p_read k reader false [] s₂ buf count ≡ oops)
unfolding scull_p_open scull_p_proper_open open_to_read open_to_write wait_for_writers sleep_while
    scull_p_read read_wait take_out
failed_open_faults k kmalloc len writer reader s buf count linux proper no_buf left no_readers
      no_writers short w r =
    let s₁ = unlock (record (lock s) { dev = record s.dev { writers = 1 } }) in
    let s₂ = unlock (record (lock s₁) { dev = record s₁.dev { readers = 1 } }) in
    (s₁, s₂, ground arith, refl, ground (arith, linux.opens), ground arith)
