-- ===== src/Pipe/Users.antt =====
-- Processes that open, use and close one pipe device (scull/pipe.c) in any order.
use ldd3_workshop.Prelude.{
  ℕ, zero, suc, ◌+◌, ◌≡◌, arith, ◌≤◌, ◌<◌, Bool, true, ◌||◌, none, some, List, [], ◌∷◌, get_elem?,
  length, if◌then◌else◌,
}
use ldd3_workshop.Kernel.{Bytes, Ret, ok, err, Kernel}
use ldd3_workshop.Pipe.Device.{File, Session, Outcome, returned, asleep, oops}
use ldd3_workshop.Pipe.Open.{Kmalloc, scull_p_open, scull_p_release}
use ldd3_workshop.Pipe.History.{read, write, History, entering, call}

-- The device with what was written and read since it was last opened, the files that are open, and
-- those whose release was interrupted.
pub record Users : Type 0 where
  pub history : History
  pub files : List File
  pub stuck : List File

-- What a process does; a number says which of the open files it uses. The Boolean is whether the
-- wait for the lock is interrupted.
pub data Event : Type 0 where
  opens : File → Bool → Event
  releases : ℕ → Bool → Event
  reads writes : ℕ → Bytes → ℕ → ℕ → Event

module _ {ℓ} {A : Type ℓ} where
  unfoldable pub removed : ℕ → List A → List A
  removed i [] = []
  removed zero (x ∷ xs) = xs
  removed (suc i) (x ∷ xs) = x ∷ removed i xs

-- Opening empties the device, so what was written before is gone.
abbrev pub after_open : Users → File → Outcome → Users
after_open u file (returned (ok _) s) = record u {
  history = record { dev = s.dev; sent = []; received = [] };
  files = file ∷ u.files;
}
after_open u file (returned (err _) s) = record u { history = record u.history { dev = s.dev } }
after_open u file (asleep s) = record u { history = record u.history { dev = s.dev } }
after_open u file oops = u

-- The kernel closes the file whatever the release returns.
abbrev pub after_release : Users → ℕ → File → Ret × Session → Users
after_release u i file (ok _, s) = record u {
  history = record u.history { dev = s.dev };
  files = removed i u.files;
}
after_release u i file (err _, s) = record u {
  history = record u.history { dev = s.dev };
  files = removed i u.files;
  stuck = file ∷ u.stuck;
}

abbrev pub no_user : Bytes
no_user _ = 0

module _ (k : Kernel) (kmalloc : Kmalloc) (scull_p_len : ℕ) where
  unfoldable pub event : Users → Event → Users
  event u (opens file interrupted) =
      after_open u file
        (scull_p_open k kmalloc scull_p_len file interrupted [] (entering u.history.dev no_user))
  event u (releases i interrupted) = elim (get_elem? u.files i) [
    | none ↦ u
    | some file ↦
        after_release u i file (scull_p_release k file interrupted (entering u.history.dev no_user))
  ]
  event u (reads i user buf count) = elim (get_elem? u.files i) [
    | none ↦ u
    | some file ↦ record u { history = call k u.history (read file user buf count) }
  ]
  event u (writes i user buf count) = elim (get_elem? u.files i) [
    | none ↦ u
    | some file ↦ record u { history = call k u.history (write file user buf count) }
  ]

  unfoldable pub events : Users → List Event → Users
  events u [] = u
  events u (e ∷ es) = events (event u e) es

-- How many files are open for reading, and for writing.
unfoldable pub readers_in : List File → ℕ
readers_in [] = 0
readers_in (f ∷ fs) = (if f.mode_read then 1 else 0) + readers_in fs

unfoldable pub writers_in : List File → ℕ
writers_in [] = 0
writers_in (f ∷ fs) = (if f.mode_write then 1 else 0) + writers_in fs

-- A file is open for reading, for writing, or for both.
abbrev pub HasMode : File → Type 0
HasMode f = (f.mode_read || f.mode_write) ≡ true

abbrev pub AllModes : List File → Type 0
AllModes [] = Unit
AllModes (f ∷ fs) = HasMode f × AllModes fs

abbrev pub EventMode : Event → Type 0
EventMode (opens file interrupted) = HasMode file
EventMode (releases i interrupted) = Unit
EventMode (reads i user buf count) = Unit
EventMode (writes i user buf count) = Unit

abbrev pub AllEventModes : List Event → Type 0
AllEventModes [] = Unit
AllEventModes (e ∷ es) = EventMode e × AllEventModes es

pub removed-counts :
    (i : ℕ) (fs : List File) (f : File)
    → get_elem? fs i ≡ some f
    → (readers_in fs ≡ (if f.mode_read then 1 else 0) + readers_in (removed i fs))
      × (writers_in fs ≡ (if f.mode_write then 1 else 0) + writers_in (removed i fs))
      × (length fs ≡ suc (length (removed i fs)))
unfolding removed readers_in writers_in
removed-counts i [] f e = cc
removed-counts zero (g ∷ fs) f e =
    let same : g ≡ f = cc in rw same (ground arith, ground arith, ground arith)
removed-counts (suc i) (g ∷ fs) f e =
    let (r, w, l) = removed-counts i fs f e in
    (omega (arith, r), omega (arith, w), omega (arith, l))

pub removed-AllModes :
    (i : ℕ) (fs : List File) (f : File)
    → get_elem? fs i ≡ some f
    → AllModes fs
    → HasMode f × AllModes (removed i fs)
unfolding removed
removed-AllModes i [] f e m = cc
removed-AllModes zero (g ∷ fs) f e (here, there) =
    let same : g ≡ f = cc in (rw (← same) here, there)
removed-AllModes (suc i) (g ∷ fs) f e (here, there) =
    let (m, ms) = removed-AllModes i fs f e there in (m, (here, ms))

-- Files with modes are counted.
pub counts-pos : (fs : List File) → AllModes fs → length fs ≤ readers_in fs + writers_in fs
unfolding readers_in writers_in
counts-pos [] m = omega arith
counts-pos (f ∷ fs) (here, there) = ground (arith, counts-pos fs there)

pub counts-le : (fs : List File) → (readers_in fs ≤ length fs) × (writers_in fs ≤ length fs)
unfolding readers_in writers_in
counts-le [] = (omega arith, omega arith)
counts-le (f ∷ fs) = let ih = counts-le fs in (ground (arith, ih.0), ground (arith, ih.1))

-- Where there is an open file, there are some.
pub used_by : (j : ℕ) (fs : List File) (f : File) → get_elem? fs j ≡ some f → 0 < length fs
used_by j [] f e = cc
used_by j (g ∷ fs) f e = omega arith
