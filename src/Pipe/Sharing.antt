-- ===== src/Pipe/Sharing.antt =====
-- The counts and the buffer of a pipe device (scull/pipe.c) whose files several processes open and use.
use native.Mathlib.Decide.{dec_lt}
use ldd3_workshop.Prelude.{
  ℕ, suc, ◌+◌, ◌^◌, ◌≤◌, ◌<◌, ◌≡◌, ◌≢◌, ◌⊎◌, inl, inr, refl, sym, ap, ◌∙◌, Bool, true, false, none,
  some, [], ◌∷◌, arith, length, Option-cases, Bool-cases,
}
use ldd3_workshop.Kernel.{ok, err, enomem, erestartsys, Kernel, IsLinux}
use ldd3_workshop.Pipe.Device.{
  Buffer, ScullPipe, proper_fifo_beh_idx, File, Session, unlock, returned,
}
use ldd3_workshop.Pipe.Io.{
  read_wait, scull_getwritespace, sleep_while, take_out, put_in, scull_p_read, scull_p_write,
}
use ldd3_workshop.Pipe.Ring.{size_of, contents, waiting, fill, tabulate}
use ldd3_workshop.Pipe.Open.{Kmalloc, counted, emptied, scull_p_open, open_plainly}
use ldd3_workshop.Pipe.Counts.{IsKmalloc}
use ldd3_workshop.Pipe.History.{Call, read, write, History, entering, call, IsFifo, call-IsFifo}
use ldd3_workshop.Pipe.Users.{
  Users, opens, event, readers_in, writers_in, HasMode, AllModes, counts-le,
}

-- What no read and no write changes.
pub record SameUsers (d d' : ScullPipe) : Type 0 where
  pub same_idx : d'.idx ≡ d.idx
  pub same_readers : d'.readers ≡ d.readers
  pub same_writers : d'.writers ≡ d.writers
  pub same_buf_len : d'.buf_len ≡ d.buf_len

pub call-SameUsers : (k : Kernel) (h : History) (c : Call) → SameUsers h.dev (call k h c).dev
unfolding call scull_p_read read_wait sleep_while take_out scull_p_write scull_getwritespace put_in
call-SameUsers k h (read file user buf count) = record {
  same_idx = ground arith;
  same_readers = ground arith;
  same_writers = ground arith;
  same_buf_len = ground arith;
}
call-SameUsers k h (write file user buf count) = record {
  same_idx = ground arith;
  same_readers = ground arith;
  same_writers = ground arith;
  same_buf_len = ground arith;
}

abbrev pub in_use : Users → ℕ
in_use u = length u.files + length u.stuck

-- The device counts each file that is open, and each whose release was interrupted, once for each of
-- its modes. While there is one, the buffer is there, and the device is a queue of what was written
-- since the last open; otherwise the buffer is freed.
pub record IsShared (len n : ℕ) (u : Users) : Type 0 where
  pub other : u.history.dev.idx ≢ proper_fifo_beh_idx
  pub readers : u.history.dev.readers ≡ readers_in u.files + readers_in u.stuck
  pub writers : u.history.dev.writers ≡ writers_in u.files + writers_in u.stuck
  pub modes : AllModes u.files
  pub stuck_modes : AllModes u.stuck
  pub few : in_use u ≤ n
  pub queue : 0 < in_use u → IsFifo u.history × (u.history.dev.buf_len ≡ len)
  pub unused : in_use u ≡ 0 → u.history.dev.buf ≡ none

pub same-IsShared : (len n : ℕ) (u : Users) → IsShared len n u → IsShared len (suc n) u
same-IsShared len n u i = record {
  other = i.other;
  readers = i.readers;
  writers = i.writers;
  modes = i.modes;
  stuck_modes = i.stuck_modes;
  few = omega (arith, i.few);
  queue = i.queue;
  unused = i.unused;
}

module _ (k : Kernel) (kmalloc : Kmalloc) (len : ℕ) (linux : IsLinux k) (sized : IsKmalloc kmalloc)
    (some_len : 0 < len) (small : len < 2 ^ 63) where
  pub call-IsShared :
      (n : ℕ) (u : Users) (c : Call)
      → IsShared len n u
      → 0 < in_use u
      → IsShared len (suc n) (record u { history = call k u.history c })
  call-IsShared n u c i used =
      let same = call-SameUsers k u.history c in
      let (fifo, at_len) = i.queue used in
      record {
        other = λ e. i.other (sym same.same_idx ∙ e);
        readers = same.same_readers ∙ i.readers;
        writers = same.same_writers ∙ i.writers;
        modes = i.modes;
        stuck_modes = i.stuck_modes;
        few = omega (arith, i.few);
        queue = λ _. (call-IsFifo k u.history c linux fifo, same.same_buf_len ∙ at_len);
        unused = λ none_open. absurd (omega arith);
      }

  -- A plain open that gets the lock.
  abbrev opened : File → Buffer → ScullPipe → ScullPipe
  opened file b d = counted file (emptied len (record d { buf = some b }))

  open_outcome :
      (file : File) (s : Session)
      → s.dev.idx ≢ proper_fifo_beh_idx
      → ((c : Buffer) → s.dev.buf ≡ some c → len ≤ c.size)
      → (scull_p_open k kmalloc len file false [] s ≡ returned (err enomem) (unlock s))
        ⊎ ((b : Buffer) × (len ≤ b.size)
            × (scull_p_open k kmalloc len file false [] s
                ≡ returned (ok 0) (record (unlock s) { dev = opened file b s.dev })))
  unfolding scull_p_open open_plainly
  open_outcome file s other fits = elim (Option-cases s.dev.buf) [
    | inr (c, old) ↦ inr (c, fits c old, ground (arith, linux.opens))
    | inl new ↦ elim (Option-cases (kmalloc len)) [
      | inl short ↦ inl (ground arith)
      | inr (b, grant) ↦ inr (b, ground (arith, sized len b grant), ground (arith, linux.opens))
    ]
  ]

  opened-IsFifo :
      (file : File) (b : Buffer) (d : ScullPipe)
      → len ≤ b.size
      → IsFifo (record { dev = opened file b d; sent = []; received = [] })
  unfolding contents waiting fill tabulate
  opened-IsFifo file b d fits = record {
    is_open = record {
      some_room = some_len;
      small = small;
      allocated = fits;
      end_is = refl;
      rp_in = some_len;
      wp_in = some_len;
    };
    in_order = refl;
  }

  opened-IsShared :
      (n : ℕ) (u : Users) (file : File) (b : Buffer)
      → IsShared len n u
      → n < 2 ^ 62
      → HasMode file
      → len ≤ b.size
      → IsShared len (suc n) (record u {
        history = record { dev = opened file b u.history.dev; sent = []; received = [] };
        files = file ∷ u.files;
      })
  unfolding readers_in writers_in
  opened-IsShared n u file b i bound mode fits =
      let open_le = counts-le u.files in
      let stuck_le = counts-le u.stuck in
      record {
        other = i.other;
        readers = ground (arith, i.readers, open_le, stuck_le, i.few);
        writers = ground (arith, i.writers, open_le, stuck_le, i.few);
        modes = (mode, i.modes);
        stuck_modes = i.stuck_modes;
        few = omega (arith, i.few);
        queue = λ _. (opened-IsFifo file b u.history.dev fits, refl);
        unused = λ none_open. absurd (omega arith);
      }

  -- A buffer that is there is as long as `len`.
  buffer_fits :
      (n : ℕ) (u : Users)
      → IsShared len n u
      → (c : Buffer) → u.history.dev.buf ≡ some c
      → len ≤ c.size
  buffer_fits n u i c at = elim (dec_lt 0 (in_use u)) [
    | yes used ↦
        (let (fifo, at_len) = i.queue used in
          let size : size_of u.history.dev.buf ≡ c.size = ap size_of at in
          omega (arith, fifo.is_open.allocated, at_len, size))
    | no idle ↦
        (let none_there : u.history.dev.buf ≡ none = i.unused (omega arith) in
          let clash : none ≡ some c = sym none_there ∙ at in cc)
  ]

  interrupted_open :
      (file : File) (s : Session)
      → s.dev.idx ≢ proper_fifo_beh_idx
      → scull_p_open k kmalloc len file true [] s ≡ returned (err erestartsys) s
  unfolding scull_p_open
  interrupted_open file s other = ground arith

  pub opens-IsShared :
      (n : ℕ) (u : Users) (file : File) (interrupted : Bool)
      → IsShared len n u
      → n < 2 ^ 62
      → HasMode file
      → IsShared len (suc n) (event k kmalloc len u (opens file interrupted))
  unfolding event
  opens-IsShared n u file interrupted i bound mode = elim (Bool-cases interrupted) [
    | inl signal ↦
        (let e = interrupted_open file (entering u.history.dev (λ _. 0)) i.other in
          rw (signal, e, event) (same-IsShared len n u i))
    | inr locked ↦
        (let s = entering u.history.dev (λ _. 0) in
          elim (open_outcome file s i.other (buffer_fits n u i)) [
            | inl short ↦ rw (locked, short, event) (same-IsShared len n u i)
            | inr (b, fits, e) ↦
                rw (locked, e, event) (opened-IsShared n u file b i bound mode fits)
          ])
  ]
