-- ===== src/Pipe/Closing.antt =====
-- Closing the files of a pipe device (scull/pipe.c), and any order of opening, using and closing them.
use ldd3_workshop.Prelude.{
  ℕ, suc, ◌+◌, ◌^◌, ◌≤◌, ◌<◌, ◌≡◌, inl, inr, refl, Bool, true, false, some, List, [], ◌∷◌, arith,
  get_elem?, length, Option-cases, Bool-cases, ◌==◌,
}
use ldd3_workshop.Kernel.{Kernel, IsLinux}
use ldd3_workshop.Pipe.Device.{File}
use ldd3_workshop.Pipe.Open.{Kmalloc, scull_p_release}
use ldd3_workshop.Pipe.Counts.{IsKmalloc}
use ldd3_workshop.Pipe.History.{read, write, entering}
use ldd3_workshop.Pipe.Users.{
  Users, Event, opens, releases, reads, writes, removed, after_release, event, events, readers_in,
  writers_in, EventMode, AllEventModes, removed-counts, removed-AllModes, counts-pos, counts-le,
  used_by,
}
use ldd3_workshop.Pipe.Release.{recounted, release_outcome}
use ldd3_workshop.Pipe.Sharing.{IsShared, same-IsShared, call-IsShared, opens-IsShared}

module _ (k : Kernel) (kmalloc : Kmalloc) (len : ℕ) (linux : IsLinux k) (sized : IsKmalloc kmalloc)
    (some_len : 0 < len) (small : len < 2 ^ 63) where
  released-IsShared :
      (n j : ℕ) (u : Users) (file : File)
      → IsShared len n u
      → n < 2 ^ 62
      → get_elem? u.files j ≡ some file
      → IsShared len
          (suc n)
          (after_release u j file (scull_p_release k file false (entering u.history.dev (λ _. 0))))
  released-IsShared n j u file i bound at =
      let (r, w, l) = removed-counts j u.files file at in
      let (mode, rest_modes) = removed-AllModes j u.files file at i.modes in
      let rest = removed j u.files in
      let d = u.history.dev in
      let readers' = readers_in rest + readers_in u.stuck in
      let writers' = writers_in rest + writers_in u.stuck in
      let open_le = counts-le rest in
      let stuck_le = counts-le u.stuck in
      let out =
        release_outcome k file (entering d (λ _. 0)) readers' writers' (omega (arith, i.readers, r))
          (omega (arith, i.writers, w)) (omega (arith, open_le, stuck_le, i.few, l))
          (omega (arith, open_le, stuck_le, i.few, l)) in
      let (fifo, at_len) = i.queue (omega (arith, l)) in
      elim (Bool-cases (readers' + writers' == 0)) [
        | inl last ↦
            rw (out, last)
              (record {
                other = i.other;
                readers = refl;
                writers = refl;
                modes = rest_modes;
                stuck_modes = i.stuck_modes;
                few = omega (arith, i.few, l);
                queue = λ used.
                    absurd (
                      ground (arith, counts-pos rest rest_modes, counts-pos u.stuck i.stuck_modes));
                unused = λ _. refl;
              })
        | inr more ↦
            rw (out, more)
              (record {
                other = i.other;
                readers = refl;
                writers = refl;
                modes = rest_modes;
                stuck_modes = i.stuck_modes;
                few = omega (arith, i.few, l);
                queue = λ _. (recounted u.history _ _ _ fifo, at_len);
                unused = λ none_open. absurd (ground (arith, open_le, stuck_le));
              })
      ]

  -- A release that is interrupted leaves the counts.
  stuck-IsShared :
      (n j : ℕ) (u : Users) (file : File)
      → IsShared len n u
      → get_elem? u.files j ≡ some file
      → IsShared len
          (suc n)
          (after_release u j file (scull_p_release k file true (entering u.history.dev (λ _. 0))))
  unfolding scull_p_release readers_in writers_in
  stuck-IsShared n j u file i at =
      let (r, w, l) = removed-counts j u.files file at in
      let (mode, rest_modes) = removed-AllModes j u.files file at i.modes in
      let (fifo, at_len) = i.queue (omega (arith, l)) in
      record {
        other = i.other;
        readers = omega (arith, i.readers, r);
        writers = omega (arith, i.writers, w);
        modes = rest_modes;
        stuck_modes = (mode, i.stuck_modes);
        few = omega (arith, i.few, l);
        queue = λ _. (recounted u.history _ _ _ fifo, at_len);
        unused = λ none_open. absurd (omega arith);
      }

  releases-IsShared :
      (n : ℕ) (u : Users) (j : ℕ) (interrupted : Bool)
      → IsShared len n u
      → n < 2 ^ 62
      → IsShared len (suc n) (event k kmalloc len u (releases j interrupted))
  unfolding event
  releases-IsShared n u j interrupted i bound = elim (Option-cases (get_elem? u.files j)) [
    | inl missing ↦ rw (missing, event) (same-IsShared len n u i)
    | inr (file, at) ↦ elim (Bool-cases interrupted) [
      | inl signal ↦ rw (at, signal, event) (stuck-IsShared n j u file i at)
      | inr locked ↦ rw (at, locked, event) (released-IsShared n j u file i bound at)
    ]
  ]

  event-IsShared :
      (n : ℕ) (u : Users) (e : Event)
      → IsShared len n u
      → n < 2 ^ 62
      → EventMode e
      → IsShared len (suc n) (event k kmalloc len u e)
  unfolding event
  event-IsShared n u (opens file interrupted) i bound mode =
      opens-IsShared k kmalloc len linux sized some_len small n u file interrupted i bound mode
  event-IsShared n u (releases j interrupted) i bound mode =
      releases-IsShared n u j interrupted i bound
  event-IsShared n u (reads j user buf count) i bound mode =
      elim (Option-cases (get_elem? u.files j)) [
        | inl missing ↦ rw (missing, event) (same-IsShared len n u i)
        | inr (file, at) ↦
            rw (at, event)
              (call-IsShared k kmalloc len linux sized some_len small n u (read file user buf count)
                i (omega (arith, used_by j u.files file at)))
      ]
  event-IsShared n u (writes j user buf count) i bound mode =
      elim (Option-cases (get_elem? u.files j)) [
        | inl missing ↦ rw (missing, event) (same-IsShared len n u i)
        | inr (file, at) ↦
            rw (at, event)
              (call-IsShared k kmalloc len linux sized some_len small n u
                (write file user buf count) i (omega (arith, used_by j u.files file at)))
      ]

-- A pipe device other than the one with the proper behaviour, whatever opens, releases, reads and
-- writes come, in any order, up to 2 ^ 62 of them, interrupted or short of memory, of files that are
-- open for reading, writing or both, with a `scull_p_len` from 1 to 2 ^ 63 that is left as it is and
-- which `kmalloc` keeps to: if it was so at the start, the device counts each file that is open, and
-- each whose release was interrupted, once for each of its modes. While there is one, the buffer is
-- there, and the device is the queue of what was written since the last open; with none, the buffer
-- has been freed.
pub events-IsShared :
    (k : Kernel) (kmalloc : Kmalloc) (len n : ℕ) (u : Users) (es : List Event)
    → IsLinux k
    → IsKmalloc kmalloc
    → 0 < len
    → len < 2 ^ 63
    → n + length es ≤ 2 ^ 62
    → AllEventModes es
    → IsShared len n u
    → IsShared len (n + length es) (events k kmalloc len u es)
unfolding events
events-IsShared k kmalloc len n u [] linux sized some_len small bound modes i =
    let same : n + 0 ≡ n = omega arith in rw same i
events-IsShared k kmalloc len n u (e ∷ es) linux sized some_len small bound (here, there) i =
    let next = event-IsShared k kmalloc len linux sized some_len small n u e i (omega arith) here in
    let same : suc n + length es ≡ n + suc (length es) = omega arith in
    rw (← same) (
      events-IsShared k kmalloc len (suc n) (event k kmalloc len u e) es linux sized some_len small
        (omega arith) there next)
