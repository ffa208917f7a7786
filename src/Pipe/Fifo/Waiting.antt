-- ===== src/Pipe/Fifo/Waiting.antt =====
-- The opens of the device with the proper behaviour (scull/pipe.c) that wait for a writer.
use ldd3_workshop.Prelude.{
  ℕ, suc, ◌^◌, ◌<◌, ◌≡◌, ◌⊎◌, inl, inr, refl, Bool, true, false, some, ◌∷◌, arith, get_elem?,
  Option-cases, Bool-cases,
}
use ldd3_workshop.Kernel.{ok, Kernel, IsLinux}
use ldd3_workshop.Pipe.Device.{File, Session, unlock, returned, asleep}
use ldd3_workshop.Pipe.Io.{sleep_while}
use ldd3_workshop.Pipe.Open.{Kmalloc, no_writers, wait_for_writers}
use ldd3_workshop.Pipe.History.{entering}
use ldd3_workshop.Pipe.Users.{removed, no_user, readers_in, writers_in, removed-counts}
use ldd3_workshop.Pipe.Fifo.{FifoUsers, goes_on, after_waking, open_on, waking, event}
use ldd3_workshop.Pipe.Fifo.Invariant.{
  IsGenerous, IsCounted, later-IsCounted, removed-AllReaders, writer_there,
}

module _ (k : Kernel) (kmalloc : Kmalloc) (len : ℕ) (linux : IsLinux k)
    (generous : IsGenerous kmalloc) (some_len : 0 < len) (small : len < 2 ^ 63) where
  waking_ends :
      (file : File) (s : Session)
      → let r = waking k kmalloc len file false s in
        (r ≡ asleep (unlock s)) ⊎ ((no_writers s.dev ≡ false) × (r ≡ returned (ok 0) (unlock s)))
  unfolding open_on wait_for_writers sleep_while
  waking_ends file s = elim (Bool-cases (no_writers s.dev)) [
    | inl nobody ↦ inl (rw (open_on, wait_for_writers, sleep_while, nobody) refl)
    | inr somebody ↦
        inr (somebody, rw (open_on, wait_for_writers, sleep_while, somebody, linux.opens) refl)
  ]

  interrupted-IsCounted :
      (n j : ℕ) (u : FifoUsers) (file : File)
      → get_elem? u.opening j ≡ some file
      → IsCounted len n u
      → IsCounted len
          (suc n)
          (after_waking u j file (waking k kmalloc len file true (entering u.history.dev no_user)))
  unfolding readers_in writers_in
  interrupted-IsCounted n j u file at i =
      let (r, w, l) = removed-counts j u.opening file at in
      let ((reading, no_writing), rest) = removed-AllReaders j u.opening file at i.waiting_modes in
      record {
        proper = i.proper;
        readers = omega (arith, i.readers, r);
        writers = ground (arith, i.writers, no_writing);
        modes = i.modes;
        waiting_modes = rest;
        few = omega (arith, i.few, l);
        room = i.room;
        queue = λ used. i.queue (ground (arith, no_writing, used));
      }

  entered-IsCounted :
      (n j : ℕ) (u : FifoUsers) (file : File)
      → get_elem? u.opening j ≡ some file
      → no_writers u.history.dev ≡ false
      → IsCounted len n u
      → IsCounted len (suc n) (record u { files = file ∷ u.files; opening = removed j u.opening })
  unfolding readers_in writers_in
  entered-IsCounted n j u file at somebody i =
      let (r, w, l) = removed-counts j u.opening file at in
      let ((reading, no_writing), rest) = removed-AllReaders j u.opening file at i.waiting_modes in
      record {
        proper = i.proper;
        readers = omega (arith, i.readers, r);
        writers = ground (arith, i.writers, no_writing);
        modes = (ground (arith, reading), i.modes);
        waiting_modes = rest;
        few = omega (arith, i.few, l);
        room = i.room;
        queue = λ _. i.queue (writer_there len n u i somebody);
      }

  woken-IsCounted :
      (n j : ℕ) (u : FifoUsers) (file : File)
      → get_elem? u.opening j ≡ some file
      → IsCounted len n u
      → IsCounted len
          (suc n)
          (after_waking u j file (waking k kmalloc len file false (entering u.history.dev no_user)))
  woken-IsCounted n j u file at i = elim (waking_ends file (entering u.history.dev no_user)) [
    | inl sleeps ↦ rw sleeps (later-IsCounted len n u i)
    | inr (somebody, e) ↦ rw e (entered-IsCounted n j u file at somebody i)
  ]

  pub goes_on-IsCounted :
      (n : ℕ) (u : FifoUsers) (j : ℕ) (interrupted : Bool)
      → IsCounted len n u
      → IsCounted len (suc n) (event k kmalloc len u (goes_on j interrupted))
  unfolding event
  goes_on-IsCounted n u j interrupted i = elim (Option-cases (get_elem? u.opening j)) [
    | inl missing ↦ rw (missing, event) (later-IsCounted len n u i)
    | inr (file, at) ↦ elim (Bool-cases interrupted) [
      | inl signal ↦ rw (at, signal, event) (interrupted-IsCounted n j u file at i)
      | inr locked ↦ rw (at, locked, event) (woken-IsCounted n j u file at i)
    ]
  ]
