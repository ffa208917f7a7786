-- ===== src/Pipe/Transfer.antt =====
-- The copies of `scull_p_read` and `scull_p_write` (scull/pipe.c) against a queue of bytes.
use ldd3_workshop.Prelude.{
  ℕ, ◌+◌, ◌-◌, ◌≤◌, ◌<◌, ◌≡◌, ◌≢◌, ◌⊎◌, inl, inr, refl, sym, ap, ◌∙◌, false, some, ◌∷◌, ◌++◌, arith,
  min, ltb, leb, if◌then◌else◌,
}
use ldd3_workshop.Kernel.{Bytes, Errno, ok, err, Kernel, IsLinux}
use ldd3_workshop.Pipe.Device.{
  Buffer, ScullPipe, inq, outq, Session, unlock, returned, oops, sigio, spacefree,
}
use ldd3_workshop.Pipe.Io.{take_out, put_in, advance, splice, signals}
use ldd3_workshop.Pipe.Ring.{
  tabulate, tabulate_ext, fill, contents, waiting, size_of, bytes_of, IsOpen, spacefree-fill,
  waiting-taken, waiting-extended, waiting_kept,
}

-- What a process knows of a device apart from the buffer and the two pointers.
pub record SameUsers (d d' : ScullPipe) : Type 0 where
  pub same_idx : d'.idx ≡ d.idx
  pub same_len : d'.buf_len ≡ d.buf_len
  pub same_readers : d'.readers ≡ d.readers
  pub same_writers : d'.writers ≡ d.writers

-- How many bytes one read takes: up to the write pointer or the end of the buffer.
abbrev pub readable : ScullPipe → ℕ
readable dev = if ltb dev.rp dev.wp then dev.wp - dev.rp else dev.buf_len - dev.rp

-- How many bytes one write puts: up to the end of the buffer or the byte before the read pointer.
abbrev pub writable : ScullPipe → ℕ
writable dev =
    min (spacefree dev) (if leb dev.rp dev.wp then dev.buf_len - dev.wp else dev.rp - dev.wp - 1)

readable-le :
    (dev : ScullPipe)
    → IsOpen dev
    → dev.rp ≢ dev.wp
    → (readable dev ≤ fill dev) × (dev.rp + readable dev ≤ dev.buf_len) × (0 < readable dev)
unfolding fill
readable-le dev v ne = ground arith

writable-le :
    (dev : ScullPipe)
    → IsOpen dev
    → spacefree dev ≢ 0
    → (dev.wp + writable dev ≤ dev.buf_len) × (0 < writable dev)
writable-le dev v ne = unfold fill in ground (arith, spacefree-fill dev v)

-- The subtractions of the code do not wrap.
space_small :
    (dev : ScullPipe)
    → IsOpen dev
    → spacefree dev ≢ 0
    → (dev.rp < dev.buf_len) × (dev.wp < dev.rp → dev.wp + 1 < dev.rp)
space_small dev v room = unfold fill in ground (arith, spacefree-fill dev v)

-- `n` bytes went from the front of the queue of `s` to the user address `buf`.
pub record Took (s : Session) (buf count n : ℕ) (s' : Session) : Type 0 where
  pub amount : n ≡ min count (readable s.dev)
  pub front : contents s.dev ≡ tabulate s'.user buf n ++ contents s'.dev
  pub untouched : (x : ℕ) → (x < buf) ⊎ (buf + n ≤ x) → s'.user x ≡ s.user x
  pub still_open : IsOpen s'.dev
  pub users : SameUsers s.dev s'.dev
  pub released : s'.holding ≡ false
  pub woken : s'.wakes ≡ outq ∷ s.wakes

module _ (k : Kernel) (linux : IsLinux k) where
  abbrev outgoing : Session → Buffer → ℕ → ℕ → ℕ × Bytes
  outgoing s b buf n = k.copy_to_user s.user buf (λ i. b.bytes (s.dev.rp + i)) n

  take_out-eq-ok :
      (s : Session) (b : Buffer) (buf count n : ℕ) (s' : Session)
      → IsOpen s.dev
      → s.dev.buf ≡ some b
      → take_out k s buf count ≡ returned (ok n) s'
      → (n ≡ min count (readable s.dev))
        × ((outgoing s b buf n).0 ≡ 0)
        × (s' ≡ record (unlock s) {
          user = (outgoing s b buf n).1;
          dev = record s.dev { rp = advance s.dev s.dev.rp n };
          wakes = outq ∷ s.wakes;
        })
  unfolding take_out
  take_out-eq-ok s b buf count n s' v at e = ground arith

  pub take_out-Took :
      (s : Session) (b : Buffer) (buf count n : ℕ) (s' : Session)
      → IsOpen s.dev
      → s.dev.rp ≢ s.dev.wp
      → s.dev.buf ≡ some b
      → take_out k s buf count ≡ returned (ok n) s'
      → Took s buf count n s'
  unfolding contents
  take_out-Took s b buf count n s' v ne at e =
      let (amount, all, s_is) = take_out-eq-ok s b buf count n s' v at e in
      let r = readable-le s.dev v ne in
      rw s_is (record {
        amount = amount;
        front =
            waiting-taken (bytes_of s.dev.buf) s.dev v n (omega (arith, amount, r))
              (omega (arith, amount, r))
            ∙ ap (λ l. l ++ contents (record s.dev { rp = advance s.dev s.dev.rp n }))
                (tabulate_ext (bytes_of s.dev.buf) (outgoing s b buf n).1 s.dev.rp buf n λ d h.
                  rw at (sym (linux.to_copies s.user buf (λ j. b.bytes (s.dev.rp + j)) n d all h)));
        untouched = λ x out. linux.to_frame s.user buf (λ j. b.bytes (s.dev.rp + j)) n x out;
        still_open = ground (arith, r);
        users = record {
          same_idx = refl;
          same_len = refl;
          same_readers = refl;
          same_writers = refl;
        };
        released = refl;
        woken = refl;
      })

  -- A read with data available touches only the buffer.
  pub take_out_safe :
      (s : Session) (b : Buffer) (buf count : ℕ)
      → IsOpen s.dev
      → s.dev.rp ≢ s.dev.wp
      → s.dev.buf ≡ some b
      → take_out k s buf count ≢ oops
  unfolding take_out
  take_out_safe s b buf count v ne at e = ground (arith, readable-le s.dev v ne)

-- `n` bytes at the user address `buf` went to the back of the queue of `s`.
pub record Put (s : Session) (buf count n : ℕ) (s' : Session) : Type 0 where
  pub amount : n ≡ min count (writable s.dev)
  pub back : contents s'.dev ≡ contents s.dev ++ tabulate s.user buf n
  pub same_user : s'.user ≡ s.user
  pub still_open : IsOpen s'.dev
  pub users : SameUsers s.dev s'.dev
  pub released : s'.holding ≡ false
  pub woken : s'.wakes ≡ (if signals s.dev.async_q then sigio ∷ inq ∷ s.wakes else inq ∷ s.wakes)

module _ (k : Kernel) (linux : IsLinux k) where
  abbrev incoming : Session → Buffer → ℕ → ℕ → ℕ × Bytes
  incoming s b buf n = k.copy_from_user s.user (λ i. b.bytes (s.dev.wp + i)) buf n

  abbrev overwritten : Session → Buffer → ℕ → ℕ → Bytes
  overwritten s b buf n = splice b.bytes s.dev.wp (incoming s b buf n).1

  put_in-eq-ok :
      (s : Session) (b : Buffer) (buf count n : ℕ) (s' : Session)
      → IsOpen s.dev
      → spacefree s.dev ≢ 0
      → s.dev.buf ≡ some b
      → put_in k s buf count ≡ returned (ok n) s'
      → (n ≡ min count (writable s.dev))
        × ((incoming s b buf n).0 ≡ 0)
        × (s' ≡ record (unlock s) {
          dev = record s.dev {
            buf = some (record b { bytes = overwritten s b buf n });
            wp = advance s.dev s.dev.wp n;
          };
          wakes = if signals s.dev.async_q then sigio ∷ inq ∷ s.wakes else inq ∷ s.wakes;
        })
  unfolding put_in
  put_in-eq-ok s b buf count n s' v room at e = ground (arith, space_small s.dev v room)

  overwritten_out :
      (s : Session) (b : Buffer) (buf n j : ℕ)
      → (j < s.dev.wp) ⊎ (s.dev.wp + n ≤ j)
      → overwritten s b buf n j ≡ b.bytes j
  overwritten_out s b buf n j (inl h) = ground arith
  overwritten_out s b buf n j (inr h) =
      let e : s.dev.wp + (j - s.dev.wp) ≡ j = omega arith in
      ground (
        arith,
        ap b.bytes e,
        linux.from_frame s.user (λ i. b.bytes (s.dev.wp + i)) buf n (j - s.dev.wp) (omega arith),
      )

  overwritten_in :
      (s : Session) (b : Buffer) (buf n d : ℕ)
      → (incoming s b buf n).0 ≡ 0
      → d < n
      → overwritten s b buf n (s.dev.wp + d) ≡ s.user (buf + d)
  overwritten_in s b buf n d all h =
      let e : s.dev.wp + d - s.dev.wp ≡ d = omega arith in
      ground (
        arith,
        ap (incoming s b buf n).1 e,
        linux.from_copies s.user (λ i. b.bytes (s.dev.wp + i)) buf n d all h,
      )

  pub put_in-Put :
      (s : Session) (b : Buffer) (buf count n : ℕ) (s' : Session)
      → IsOpen s.dev
      → spacefree s.dev ≢ 0
      → s.dev.buf ≡ some b
      → put_in k s buf count ≡ returned (ok n) s'
      → Put s buf count n s'
  unfolding contents waiting fill
  put_in-Put s b buf count n s' v room at e =
      let (amount, all, s_is) = put_in-eq-ok s b buf count n s' v room at e in
      let w = writable-le s.dev v room in
      rw s_is (record {
        amount = amount;
        back =
            waiting-extended (bytes_of s.dev.buf) (overwritten s b buf n) s.dev v n
              (omega (arith, amount)) (omega (arith, amount, w))
              (λ j out. rw at (overwritten_out s b buf n j out))
            ∙ ap (λ l. contents s.dev ++ l)
                (tabulate_ext (overwritten s b buf n) s.user s.dev.wp buf n
                  λ d h. overwritten_in s b buf n d all h);
        same_user = refl;
        still_open = ground (arith, w, ap size_of at);
        users = record {
          same_idx = refl;
          same_len = refl;
          same_readers = refl;
          same_writers = refl;
        };
        released = refl;
        woken = refl;
      })

  -- A write with space free touches only the buffer.
  pub put_in_safe :
      (s : Session) (b : Buffer) (buf count : ℕ)
      → IsOpen s.dev
      → spacefree s.dev ≢ 0
      → s.dev.buf ≡ some b
      → put_in k s buf count ≢ oops
  unfolding put_in
  put_in_safe s b buf count v room at e =
      ground (arith, writable-le s.dev v room, space_small s.dev v room)

  put_in-eq-err :
      (s : Session) (b : Buffer) (buf count : ℕ) (x : Errno) (s' : Session)
      → IsOpen s.dev
      → spacefree s.dev ≢ 0
      → s.dev.buf ≡ some b
      → put_in k s buf count ≡ returned (err x) s'
      → s'.dev ≡ record s.dev {
        buf = some (record b { bytes = overwritten s b buf (min count (writable s.dev)) });
      }
  unfolding put_in
  put_in-eq-err s b buf count x s' v room at e = ground (arith, space_small s.dev v room)

  -- A write that fails, some bytes copied or none, leaves the waiting bytes as they were.
  pub put_in_err :
      (s : Session) (b : Buffer) (buf count : ℕ) (x : Errno) (s' : Session)
      → IsOpen s.dev
      → spacefree s.dev ≢ 0
      → s.dev.buf ≡ some b
      → put_in k s buf count ≡ returned (err x) s'
      → IsOpen s'.dev × (contents s'.dev ≡ contents s.dev)
  unfolding contents waiting fill spacefree
  put_in_err s b buf count x s' v room at e =
      let n = min count (writable s.dev) in
      let w = writable-le s.dev v room in
      rw (put_in-eq-err s b buf count x s' v room at e) (
        ground (arith, ap size_of at),
        waiting_kept (bytes_of s.dev.buf) (overwritten s b buf n) s.dev v n (omega arith)
            (omega (arith, w)) (λ j out. rw at (overwritten_out s b buf n j out)),
      )
