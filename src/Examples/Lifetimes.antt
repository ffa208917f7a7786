-- ===== src/Examples/Lifetimes.antt =====
-- Devices of scull/main.c and scull/pipe.c from loading or opening to unloading or closing.
use ldd3_workshop.Prelude.{ℕ, ◌+◌, ◌≡◌, ◌<◌, refl, Bool, true, false, some, List, [], ◌∷◌, arith}
use ldd3_workshop.Kernel.{ok}
use ldd3_workshop.Scull.Device.{Params, scull_open}
use ldd3_workshop.Scull.Io.{Session, position, scull_write}
use ldd3_workshop.Scull.Content.{byte_at}
use ldd3_workshop.Scull.Places.{Place, offset_of, positions_are_places}
use ldd3_workshop.Scull.Setup.{Slot, Answers, scull_init_module, load, setup_devices}
use ldd3_workshop.Scull.Loading.{IsUnloaded}
use ldd3_workshop.Scull.Unloading.{all_left}
use ldd3_workshop.Scull.Lifetime.{Lifetime}
use ldd3_workshop.Scull.Growth.{grown_quantum_overflows}
use ldd3_workshop.Scull.WriteLoop.{write_all}
use ldd3_workshop.Scull.ReadLoop.{read_all, read_all-write_all}
use ldd3_workshop.Pipe.Device.{File}
use ldd3_workshop.Pipe.Setup.{scull_p_init, setup_pipes}
use ldd3_workshop.Pipe.Users.{
  Users, Event, opens, releases, reads, writes, events, readers_in, writers_in,
}
use ldd3_workshop.Pipe.Sharing.{IsShared}
use ldd3_workshop.Pipe.Closing.{events-IsShared}
use ldd3_workshop.Ioctl.Handler.{io, scull_ioctl}
use ldd3_workshop.Ioctl.Laws.{scull_cmd}
use ldd3_workshop.Examples.Base.{
  small_kernel, small_kernel-IsLinux, small_kernel-IsKind, user_bytes,
}
use ldd3_workshop.Examples.Memory.{empty_dev, empty_dev-IsSized, empty_dev-IsWellFormed, at_nine}
use ldd3_workshop.Examples.Drivers.{unloaded, no_cache}
use ldd3_workshop.Examples.Control.{ints, globals}
use ldd3_workshop.Examples.Pipes.{kmalloc, file, closed}

positions_are_places_example :
    (path : ◌≡◌ {A = Type 0} ℕ (Place empty_dev)) × ((p : ℕ)
      → (coe 0 1 (i. path i) p).0 ≡ position empty_dev p)
    × ((f : Place empty_dev) → coe 1 0 (i. path i) f ≡ offset_of empty_dev f.0)
positions_are_places_example = positions_are_places empty_dev empty_dev-IsSized

-- All goes well.
abbrev good_answers : Answers
good_answers = record no_cache { cache_create = true }

unloaded-IsUnloaded : IsUnloaded unloaded
unloaded-IsUnloaded = record {
  no_region = refl;
  no_devices = refl;
  no_cache = refl;
  no_proc = refl;
  no_pipes = refl;
}

loads : (p : Params) → (scull_init_module good_answers p 2 2 unloaded).0 ≡ ok 0
unfolding scull_init_module load setup_devices scull_p_init setup_pipes
loads p = refl

-- A cache is destroyed where no object is left behind a last pointer.
abbrev is_nothing : List ℕ → Bool
is_nothing [] = true
is_nothing (x ∷ xs) = false

abbrev all_freed : List Slot → Bool
all_freed ss = is_nothing (all_left ss)

grown_quantum_overflows_example :
    let told = scull_ioctl ints true (scull_cmd io 3 0) 8000 globals in
    let opened = scull_open told.1.params false 1 empty_dev in
    let s : Session = record { dev = opened.2; requests = 0; user = user_bytes; f_pos = 4000 } in
    (told.0 ≡ ok 0)
    × (opened.0 ≡ ok 0)
    × ((scull_init_module good_answers globals.params 2 2 unloaded).1.kmc ≡ some 4000)
    × (n : ℕ) × (s' : Session) × (scull_write small_kernel false s 20 5 ≡ some (ok n, s'))
    × (0 < n)
    × ((position s'.dev 4000).offset_p ≡ 4000)
    × ((i : ℕ) → i < n → byte_at s'.dev (4000 + i) ≡ some (user_bytes (20 + i)))
grown_quantum_overflows_example =
    grown_quantum_overflows small_kernel good_answers ints 2 2 unloaded globals empty_dev user_bytes
      8000 0 20 5 small_kernel-IsLinux small_kernel-IsKind unloaded-IsUnloaded
      (loads globals.params) refl (omega arith) (omega arith) (omega arith) (omega arith)
      (omega arith)

-- At the end of an empty device, twenty bytes go into six quanta.
abbrev at_start : Session
at_start = record at_nine { f_pos = 0 }

read_all-write_all_example :
    (s₁ : Session) × (s₂ : Session) × (write_all small_kernel 20 at_start 20 20 ≡ some s₁)
    × (read_all small_kernel 20 (record s₁ { user = user_bytes; f_pos = 0 }) 60 20 ≡ some s₂)
    × ((i : ℕ) → i < 20 → s₂.user (60 + i) ≡ user_bytes (20 + i))
read_all-write_all_example =
    read_all-write_all small_kernel at_start user_bytes 20 60 20 small_kernel-IsLinux
      small_kernel-IsKind (λ user to from n. refl) empty_dev-IsSized empty_dev-IsWellFormed
      (omega arith) (omega arith) (omega arith)

-- A pipe device that nobody uses.
abbrev unused : Users
unused = record {
  history = record { dev = closed; sent = []; received = [] };
  files = [];
  stuck = [];
}

unused-IsShared : IsShared 8 0 unused
unfolding readers_in writers_in
unused-IsShared = record {
  other = λ e. ground (arith, e);
  readers = refl;
  writers = refl;
  modes = tt;
  stuck_modes = tt;
  few = omega arith;
  queue = λ some_open. absurd (omega arith);
  unused = λ none_open. refl;
}

abbrev reader : File
reader = record file { id = 2; mode_write = false }

-- Two files are opened, bytes go from one to the other, and both are closed, one of them with an
-- interrupted release.
abbrev some_events : List Event
some_events =
    opens file false
    ∷ opens reader false
    ∷ writes 1 user_bytes 20 5
    ∷ reads 0 user_bytes 60 3
    ∷ releases 1 true
    ∷ releases 0 false
    ∷ []

events-IsShared_example : IsShared 8 6 (events small_kernel kmalloc 8 unused some_events)
events-IsShared_example =
    events-IsShared small_kernel kmalloc 8 0 unused some_events small_kernel-IsLinux
      (λ n b e. ground (arith, e)) (omega arith) (omega arith) (omega arith)
      (refl, (refl, (tt, (tt, (tt, (tt, tt)))))) unused-IsShared
