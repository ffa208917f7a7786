-- ===== src/Pipe/History.antt =====
-- Any number of processes that read and write one open pipe device (scull/pipe.c), each call with
-- the lock held: a queue in which no byte is lost, doubled or overtaken.
use ldd3_workshop.Prelude.{
  ℕ, ◌≡◌, inl, inr, refl, sym, ap, ◌∙◌, false, List, [], ◌∷◌, ◌++◌, arith, Bool-cases,
}
use mathlib.Core.List.{append_assoc, append-nil}
use ldd3_workshop.Kernel.{Bytes, Errno, ok, err, Kernel, IsLinux}
use ldd3_workshop.Pipe.Device.{ScullPipe, File, Session, lock, Outcome, returned, asleep, oops}
use ldd3_workshop.Pipe.Io.{
  is_full, read_wait, scull_getwritespace, sleep_while, take_out, put_in, scull_p_read,
  scull_p_write,
}
use ldd3_workshop.Pipe.Ring.{IsOpen, tabulate, contents}
use ldd3_workshop.Pipe.Transfer.{put_in_err}
use ldd3_workshop.Pipe.Handlers.{open_buffer}
use ldd3_workshop.Pipe.Calls.{scull_p_read-Took, scull_p_write-Put}

-- One call of a process, with its memory at that time; no call sleeps.
pub data Call : Type 0 where
  read : File → Bytes → ℕ → ℕ → Call
  write : File → Bytes → ℕ → ℕ → Call

-- The device, what was written to it and what was read from it so far.
pub record History : Type 0 where
  pub dev : ScullPipe
  pub sent : List ℕ
  pub received : List ℕ

abbrev pub entering : ScullPipe → Bytes → Session
entering dev user = record { dev = dev; holding = false; user = user; wakes = [] }

-- How a call that ended goes into the history.
abbrev pub record_read : History → ℕ → Outcome → History
record_read h buf (returned (ok n) s) = record h {
  dev = s.dev;
  received = h.received ++ tabulate s.user buf n;
}
record_read h buf (returned (err e) s) = record h { dev = s.dev }
record_read h buf (asleep s) = record h { dev = s.dev }
record_read h buf oops = h

abbrev pub record_write : History → Bytes → ℕ → Outcome → History
record_write h user buf (returned (ok n) s) = record h {
  dev = s.dev;
  sent = h.sent ++ tabulate user buf n;
}
record_write h user buf (returned (err e) s) = record h { dev = s.dev }
record_write h user buf (asleep s) = record h { dev = s.dev }
record_write h user buf oops = h

module _ (k : Kernel) where
  unfoldable pub call : History → Call → History
  call h (read file user buf count) =
      record_read h buf (scull_p_read k file false [] (entering h.dev user) buf count)
  call h (write file user buf count) =
      record_write h user buf (scull_p_write k file false [] (entering h.dev user) buf count)

  unfoldable pub run : History → List Call → History
  run h [] = h
  run h (c ∷ cs) = run (call h c) cs

-- What was written is what was read and what waits, in order.
pub record IsFifo (h : History) : Type 0 where
  pub is_open : IsOpen h.dev
  pub in_order : h.sent ≡ h.received ++ contents h.dev

module _ (k : Kernel) (linux : IsLinux k) where
  kept : (h : History) (d : ScullPipe) → d ≡ h.dev → IsFifo h → IsFifo (record h { dev = d })
  kept h d e f = rw e f

  -- A read that does not return a length changes nothing.
  read_err :
      (file : File) (s s' : Session) (buf count : ℕ) (x : Errno)
      → scull_p_read k file false [] s buf count ≡ returned (err x) s'
      → s'.dev ≡ s.dev
  unfolding scull_p_read read_wait sleep_while take_out
  read_err file s s' buf count x e = ground arith

  read_asleep :
      (file : File) (s s' : Session) (buf count : ℕ)
      → scull_p_read k file false [] s buf count ≡ asleep s'
      → s'.dev ≡ s.dev
  unfolding scull_p_read read_wait sleep_while take_out
  read_asleep file s s' buf count e = ground arith

  read-IsFifo :
      (file : File) (h : History) (user : Bytes) (buf count : ℕ) (o : Outcome)
      → scull_p_read k file false [] (entering h.dev user) buf count ≡ o
      → IsFifo h
      → IsFifo (record_read h buf o)
  unfolding tabulate
  read-IsFifo file h user buf count (returned (ok n) s) e f =
      elim (scull_p_read-Took k file [] (entering h.dev user) buf count n s linux
        (λ d seen. rw seen f.is_open) e) [
          | inl (end, zero_n, s_is) ↦
              rw (zero_n, s_is)
                (record {
                  is_open = f.is_open;
                  in_order =
                      f.in_order ∙ ap (λ l. l ++ contents h.dev) (sym (append-nil h.received));
                })
          | inr (d, seen, ne, took) ↦ record {
            is_open = took.still_open;
            in_order =
                f.in_order
                ∙ ap (λ (x : ScullPipe). h.received ++ contents x) (sym seen)
                ∙ ap (λ l. h.received ++ l) took.front
                ∙ sym (append_assoc h.received (tabulate s.user buf n) (contents s.dev));
          }
        ]
  read-IsFifo file h user buf count (returned (err x) s) e f =
      kept h s.dev (read_err file (entering h.dev user) s buf count x e) f
  read-IsFifo file h user buf count (asleep s) e f =
      kept h s.dev (read_asleep file (entering h.dev user) s buf count e) f
  read-IsFifo file h user buf count oops e f = f

  write_asleep :
      (file : File) (s s' : Session) (buf count : ℕ)
      → scull_p_write k file false [] s buf count ≡ asleep s'
      → s'.dev ≡ s.dev
  unfolding scull_p_write scull_getwritespace sleep_while put_in
  write_asleep file s s' buf count e = ground arith

  write_err :
      (file : File) (s s' : Session) (buf count : ℕ) (x : Errno)
      → IsOpen s.dev
      → scull_p_write k file false [] s buf count ≡ returned (err x) s'
      → IsOpen s'.dev × (contents s'.dev ≡ contents s.dev)
  unfolding scull_p_write scull_getwritespace sleep_while
  write_err file s s' buf count x v e = elim (Bool-cases (is_full s.dev)) [
    | inl full ↦ (let same : s'.dev ≡ s.dev = ground arith in rw same (v, refl))
    | inr room ↦
        (let (b, at) = open_buffer s.dev v in
          let e' : put_in k (lock s) buf count ≡ returned (err x) s' = ground arith in
          put_in_err k linux (lock s) b buf count x s' v (λ p. ground arith) at e')
  ]

  write-IsFifo :
      (file : File) (h : History) (user : Bytes) (buf count : ℕ) (o : Outcome)
      → scull_p_write k file false [] (entering h.dev user) buf count ≡ o
      → IsFifo h
      → IsFifo (record_write h user buf o)
  write-IsFifo file h user buf count (returned (ok n) s) e f =
      let (d, seen, room, put) =
        scull_p_write-Put k file [] (entering h.dev user) buf count n s linux
          (λ d seen. rw seen f.is_open) e in
      record {
        is_open = put.still_open;
        in_order =
            ap (λ l. l ++ tabulate user buf n) f.in_order
            ∙ append_assoc h.received (contents h.dev) (tabulate user buf n)
            ∙ ap (λ (x : ScullPipe). h.received ++ (contents x ++ tabulate user buf n)) (sym seen)
            ∙ ap (λ l. h.received ++ l) (sym put.back);
      }
  write-IsFifo file h user buf count (returned (err x) s) e f =
      let (v, same) = write_err file (entering h.dev user) s buf count x f.is_open e in
      record { is_open = v; in_order = f.in_order ∙ ap (λ l. h.received ++ l) (sym same) }
  write-IsFifo file h user buf count (asleep s) e f =
      kept h s.dev (write_asleep file (entering h.dev user) s buf count e) f
  write-IsFifo file h user buf count oops e f = f

pub call-IsFifo : (k : Kernel) (h : History) (c : Call) → IsLinux k → IsFifo h → IsFifo (call k h c)
unfolding call
call-IsFifo k h (read file user buf count) linux f =
    read-IsFifo k linux file h user buf count _ refl f
call-IsFifo k h (write file user buf count) linux f =
    write-IsFifo k linux file h user buf count _ refl f

-- However the calls of readers and writers interleave, and whichever of them fail: the bytes
-- written so far are those read so far, followed by those that wait, in the same order.
pub run-IsFifo :
    (k : Kernel) (cs : List Call) (h : History) → IsLinux k → IsFifo h → IsFifo (run k h cs)
unfolding run
run-IsFifo k [] h linux f = f
run-IsFifo k (c ∷ cs) h linux f = run-IsFifo k cs (call k h c) linux (call-IsFifo k h c linux f)
