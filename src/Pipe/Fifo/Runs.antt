-- ===== src/Pipe/Fifo/Runs.antt =====
-- Runs of processes that open, use and close the pipe device with the proper behaviour (scull/pipe.c).
use ldd3_workshop.Prelude.{
  ℕ, suc, ◌+◌, ◌^◌, ◌≤◌, ◌<◌, ◌≡◌, inl, inr, refl, ap, ◌∙◌, Bool, true, false, none, some, List, [],
  ◌∷◌, arith, get_elem?, length, Option-cases, Bool-cases, ◌==◌,
}
use ldd3_workshop.Kernel.{Kernel, IsLinux}
use ldd3_workshop.Pipe.Device.{File}
use ldd3_workshop.Pipe.Ring.{size_of}
use ldd3_workshop.Pipe.Open.{Kmalloc, scull_p_release}
use ldd3_workshop.Pipe.History.{Call, read, write, entering, call, call-IsFifo}
use ldd3_workshop.Pipe.Users.{
  removed, no_user, readers_in, writers_in, removed-counts, removed-AllModes, counts-pos, used_by,
}
use ldd3_workshop.Pipe.Sharing.{call-SameUsers}
use ldd3_workshop.Pipe.Release.{release_outcome, recounted}
use ldd3_workshop.Pipe.Fifo.{
  FifoUsers, FifoEvent, opens, goes_on, releases, reads, writes, after_release, event, events,
  AllSingle,
}
use ldd3_workshop.Pipe.Fifo.Invariant.{IsGenerous, IsCounted, later-IsCounted, counts-small}
use ldd3_workshop.Pipe.Fifo.Opening.{opens-IsCounted}
use ldd3_workshop.Pipe.Fifo.Waiting.{goes_on-IsCounted}

module _ (k : Kernel) (kmalloc : Kmalloc) (len : ℕ) (linux : IsLinux k)
    (generous : IsGenerous kmalloc) (some_len : 0 < len) (small : len < 2 ^ 63) where
  released-IsCounted :
      (n j : ℕ) (u : FifoUsers) (file : File)
      → IsCounted len n u
      → n < 2 ^ 62
      → get_elem? u.files j ≡ some file
      → IsCounted len
          (suc n)
          (after_release u j file (scull_p_release k file false (entering u.history.dev no_user)))
  released-IsCounted n j u file i bound at =
      let (r, w, l) = removed-counts j u.files file at in
      let (mode, rest_modes) = removed-AllModes j u.files file at i.modes in
      let rest = removed j u.files in
      let d = u.history.dev in
      let readers' = readers_in rest + (readers_in u.opening + readers_in u.lost) in
      let writers' = writers_in rest + writers_in u.lost in
      let bounds = counts-small len n u i bound in
      let out =
        release_outcome k file (entering d no_user) readers' writers' (omega (arith, i.readers, r))
          (omega (arith, i.writers, w)) (omega (arith, bounds, i.readers, r))
          (omega (arith, bounds, i.writers, w)) in
      let (fifo, at_len) = i.queue (omega (arith, l)) in
      elim (Bool-cases (readers' + writers' == 0)) [
        | inl last ↦
            rw (out, last)
              (record {
                proper = i.proper;
                readers = refl;
                writers = refl;
                modes = rest_modes;
                waiting_modes = i.waiting_modes;
                few = omega (arith, i.few, l);
                room = λ b e. let e' : none ≡ some b = e in cc;
                queue = λ used. absurd (ground (arith, counts-pos rest rest_modes));
              })
        | inr more ↦
            rw (out, more)
              (record {
                proper = i.proper;
                readers = refl;
                writers = refl;
                modes = rest_modes;
                waiting_modes = i.waiting_modes;
                few = omega (arith, i.few, l);
                room = i.room;
                queue = λ _. (recounted u.history _ _ _ fifo, at_len);
              })
      ]

  stuck-IsCounted :
      (n j : ℕ) (u : FifoUsers) (file : File)
      → IsCounted len n u
      → get_elem? u.files j ≡ some file
      → IsCounted len
          (suc n)
          (after_release u j file (scull_p_release k file true (entering u.history.dev no_user)))
  unfolding scull_p_release readers_in writers_in
  stuck-IsCounted n j u file i at =
      let (r, w, l) = removed-counts j u.files file at in
      let (mode, rest_modes) = removed-AllModes j u.files file at i.modes in
      let (fifo, at_len) = i.queue (omega (arith, l)) in
      record {
        proper = i.proper;
        readers = omega (arith, i.readers, r);
        writers = omega (arith, i.writers, w);
        modes = rest_modes;
        waiting_modes = i.waiting_modes;
        few = omega (arith, i.few, l);
        room = i.room;
        queue = λ _. (recounted u.history _ _ _ fifo, at_len);
      }

  call-IsCounted :
      (n : ℕ) (u : FifoUsers) (c : Call)
      → IsCounted len n u
      → 0 < length u.files
      → IsCounted len (suc n) (record u { history = call k u.history c })
  call-IsCounted n u c i used =
      let same = call-SameUsers k u.history c in
      let (fifo, at_len) = i.queue (omega arith) in
      let fifo' = call-IsFifo k u.history c linux fifo in
      record {
        proper = same.same_idx ∙ i.proper;
        readers = same.same_readers ∙ i.readers;
        writers = same.same_writers ∙ i.writers;
        modes = i.modes;
        waiting_modes = i.waiting_modes;
        few = omega (arith, i.few);
        room = λ b e.
            let size = ap size_of e in
            omega (arith, fifo'.is_open.allocated, size, same.same_buf_len, at_len);
        queue = λ _. (fifo', same.same_buf_len ∙ at_len);
      }

  releases-IsCounted :
      (n : ℕ) (u : FifoUsers) (j : ℕ) (interrupted : Bool)
      → IsCounted len n u
      → n < 2 ^ 62
      → IsCounted len (suc n) (event k kmalloc len u (releases j interrupted))
  unfolding event
  releases-IsCounted n u j interrupted i bound = elim (Option-cases (get_elem? u.files j)) [
    | inl missing ↦ rw (missing, event) (later-IsCounted len n u i)
    | inr (file, at) ↦ elim (Bool-cases interrupted) [
      | inl signal ↦ rw (at, signal, event) (stuck-IsCounted n j u file i at)
      | inr locked ↦ rw (at, locked, event) (released-IsCounted n j u file i bound at)
    ]
  ]

  event-IsCounted :
      (n : ℕ) (u : FifoUsers) (e : FifoEvent)
      → IsCounted len n u
      → n < 2 ^ 62
      → AllSingle (e ∷ [])
      → IsCounted len (suc n) (event k kmalloc len u e)
  unfolding event
  event-IsCounted n u (opens file interrupted) i bound (mode, _) =
      opens-IsCounted k kmalloc len linux generous some_len small n u file interrupted i bound mode
  event-IsCounted n u (goes_on j interrupted) i bound mode =
      goes_on-IsCounted k kmalloc len linux generous some_len small n u j interrupted i
  event-IsCounted n u (releases j interrupted) i bound mode =
      releases-IsCounted n u j interrupted i bound
  event-IsCounted n u (reads j user buf count) i bound mode =
      elim (Option-cases (get_elem? u.files j)) [
        | inl missing ↦ rw (missing, event) (later-IsCounted len n u i)
        | inr (file, at) ↦
            rw (at, event)
              (call-IsCounted n u (read file user buf count) i (used_by j u.files file at))
      ]
  event-IsCounted n u (writes j user buf count) i bound mode =
      elim (Option-cases (get_elem? u.files j)) [
        | inl missing ↦ rw (missing, event) (later-IsCounted len n u i)
        | inr (file, at) ↦
            rw (at, event)
              (call-IsCounted n u (write file user buf count) i (used_by j u.files file at))
      ]

first_single :
    (e : FifoEvent) (es : List FifoEvent) → AllSingle (e ∷ es) → AllSingle (e ∷ []) × AllSingle es
first_single (opens file interrupted) es (here, there) = ((here, tt), there)
first_single (goes_on j interrupted) es there = (tt, there)
first_single (releases j interrupted) es there = (tt, there)
first_single (reads j user buf count) es there = (tt, there)
first_single (writes j user buf count) es there = (tt, there)

-- The device with the proper behaviour, whatever opens, releases, reads and writes of files that are for
-- reading or for writing come, in any order, up to 2 ^ 62 of them, with any opens that wait for a writer
-- and any interruptions, where memory is granted and `scull_p_len` is from 1 to 2 ^ 63 and left as it is:
-- if it was so at the start, the device counts each file that is open, waits to be open, or had its open
-- or release interrupted. While a file is open, the buffer is there, and the device is the queue of what
-- was written since a writer last opened it.
pub events-IsCounted :
    (k : Kernel) (kmalloc : Kmalloc) (len n : ℕ) (u : FifoUsers) (es : List FifoEvent)
    → IsLinux k
    → IsGenerous kmalloc
    → 0 < len
    → len < 2 ^ 63
    → n + length es ≤ 2 ^ 62
    → AllSingle es
    → IsCounted len n u
    → IsCounted len (n + length es) (events k kmalloc len u es)
unfolding events
events-IsCounted k kmalloc len n u [] linux generous some_len small bound single i =
    let same : n + 0 ≡ n = omega arith in rw same i
events-IsCounted k kmalloc len n u (e ∷ es) linux generous some_len small bound single i =
    let (here, there) = first_single e es single in
    let next =
      event-IsCounted k kmalloc len linux generous some_len small n u e i (omega arith) here in
    let same : suc n + length es ≡ n + suc (length es) = omega arith in
    rw (← same) (
      events-IsCounted k kmalloc len (suc n) (event k kmalloc len u e) es linux generous some_len
        small (omega arith) there next)
