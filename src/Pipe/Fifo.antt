-- ===== src/Pipe/Fifo.antt =====
-- Processes that open, use and close the pipe device with the proper behaviour (scull/pipe.c), where a
-- reader that opens it waits for a writer.
pub mod Invariant
pub mod Opening
pub mod Waiting
pub mod Runs
use ldd3_workshop.Prelude.{
  ℕ, ◌≡◌, ◌⊎◌, Bool, true, false, none, some, List, [], ◌∷◌, get_elem?, if◌then◌else◌,
}
use ldd3_workshop.Kernel.{Bytes, Ret, ok, err, erestartsys, Kernel}
use ldd3_workshop.Pipe.Device.{
  File, Session, lock, unlock, Wakeup, ready, leave, sleeping, Outcome, returned, asleep, oops,
}
use ldd3_workshop.Pipe.Open.{Kmalloc, wait_for_writers, scull_p_open, scull_p_release}
use ldd3_workshop.Pipe.History.{read, write, History, entering, call}
use ldd3_workshop.Pipe.Users.{removed, no_user}

-- The device with what was written and read since a writer last opened it, the files that are open,
-- those whose open waits for a writer, and those whose open or release was interrupted.
pub record FifoUsers : Type 0 where
  pub history : History
  pub files : List File
  pub opening : List File
  pub lost : List File

-- What a process does; a number says which of the open files it uses, or which of the waiting opens goes
-- on. The Boolean is whether the wait for the lock is interrupted.
pub data FifoEvent : Type 0 where
  opens : File → Bool → FifoEvent
  goes_on releases : ℕ → Bool → FifoEvent
  reads writes : ℕ → Bytes → ℕ → ℕ → FifoEvent

-- An open for writing empties the device.
abbrev pub opened_as : FifoUsers → File → Session → Bool → FifoUsers
opened_as u file s true = record u {
  history = record u.history { dev = s.dev };
  files = file ∷ u.files;
}
opened_as u file s false = record u {
  history = record { dev = s.dev; sent = []; received = [] };
  files = file ∷ u.files;
}

abbrev pub after_open : FifoUsers → File → Outcome → FifoUsers
after_open u file (returned (ok _) s) = opened_as u file s file.mode_read
after_open u file (returned (err _) s) = record u { history = record u.history { dev = s.dev } }
after_open u file (asleep s) = record u {
  history = record u.history { dev = s.dev };
  opening = file ∷ u.opening;
}
after_open u file oops = u

-- An open that was woken up ends, waits again, or is interrupted.
abbrev pub after_waking : FifoUsers → ℕ → File → Outcome → FifoUsers
after_waking u i file (returned (ok _) s) = record u {
  history = record u.history { dev = s.dev };
  files = file ∷ u.files;
  opening = removed i u.opening;
}
after_waking u i file (returned (err _) s) = record u {
  history = record u.history { dev = s.dev };
  opening = removed i u.opening;
  lost = file ∷ u.lost;
}
after_waking u i file (asleep s) = record u { history = record u.history { dev = s.dev } }
after_waking u i file oops = u

-- The kernel closes the file whatever the release returns.
abbrev pub after_release : FifoUsers → ℕ → File → Ret × Session → FifoUsers
after_release u i file (ok _, s) = record u {
  history = record u.history { dev = s.dev };
  files = removed i u.files;
}
after_release u i file (err _, s) = record u {
  history = record u.history { dev = s.dev };
  files = removed i u.files;
  lost = file ∷ u.lost;
}

module _ (k : Kernel) (kmalloc : Kmalloc) (scull_p_len : ℕ) where
  -- Lines 40 to 48 of `scull_p_proper_open`, from the loop on, with what follows.
  unfoldable pub open_on : File → List Wakeup → Session → Outcome
  open_on file ws s = elim (wait_for_writers k kmalloc scull_p_len file ws s) [
    | ready s' ↦ returned k.nonseekable_open (unlock s')
    | leave r s' ↦ returned r s'
    | sleeping s' ↦ asleep s'
  ]

  -- How a waiting open goes on: it is interrupted, or it has the lock.
  abbrev pub waking : File → Bool → Session → Outcome
  waking file true s = returned (err erestartsys) s
  waking file false s = open_on file [] (lock s)

  unfoldable pub event : FifoUsers → FifoEvent → FifoUsers
  event u (opens file interrupted) =
      after_open u file
        (scull_p_open k kmalloc scull_p_len file interrupted [] (entering u.history.dev no_user))
  event u (goes_on i interrupted) = elim (get_elem? u.opening i) [
    | none ↦ u
    | some file ↦ after_waking u i file (waking file interrupted (entering u.history.dev no_user))
  ]
  event u (releases i interrupted) = elim (get_elem? u.files i) [
    | none ↦ u
    | some file ↦
        after_release u i file (scull_p_release k file interrupted (entering u.history.dev no_user))
  ]
  event u (reads i user buf count) = elim (get_elem? u.files i) [
    | none ↦ u
    | some file ↦ record u { history = call k u.history (read file user buf count) }
  ]
  event u (writes i user buf count) = elim (get_elem? u.files i) [
    | none ↦ u
    | some file ↦ record u { history = call k u.history (write file user buf count) }
  ]

  unfoldable pub events : FifoUsers → List FifoEvent → FifoUsers
  events u [] = u
  events u (e ∷ es) = events (event u e) es

-- A file is open for reading or for writing, not for both.
abbrev pub IsSingle : File → Type 0
IsSingle f =
    ((f.mode_read ≡ true) × (f.mode_write ≡ false))
    ⊎ ((f.mode_read ≡ false) × (f.mode_write ≡ true))

abbrev pub AllSingle : List FifoEvent → Type 0
AllSingle [] = Unit
AllSingle (opens file interrupted ∷ es) = IsSingle file × AllSingle es
AllSingle (goes_on i interrupted ∷ es) = AllSingle es
AllSingle (releases i interrupted ∷ es) = AllSingle es
AllSingle (reads i user buf count ∷ es) = AllSingle es
AllSingle (writes i user buf count ∷ es) = AllSingle es
