-- ===== src/Scull/Lifetime.antt =====
-- The scull module from loading to unloading (scull/main.c), with any calls on its devices between.
use ldd3_workshop.Prelude.{ℕ, ◌+◌, ◌≡◌, false, Bool, some, List, [], ◌∷◌, length, times}
use ldd3_workshop.Kernel.{Kernel}
use ldd3_workshop.Scull.Device.{ScullDev, Params}
use ldd3_workshop.Scull.Setup.{Slot, Module, scull_cleanup_module}
use ldd3_workshop.Scull.Unloading.{IsWithdrawn, CacheEnd, all_held, all_left, all_arrays, all_sets}
use ldd3_workshop.Scull.History.{no_bytes, Call, History, run, AllInBounds}
use ldd3_workshop.Scull.AsFile.{IsFile}

-- The history of a device that was just loaded, and the one after the calls on it.
abbrev pub begun : ℕ → ScullDev → History
begun requests dev = record { dev = dev; requests = requests; file = no_bytes; faulted = false }

abbrev pub EachInBounds : List (List Call) → Type 0
EachInBounds [] = Unit
EachInBounds (cs ∷ css) = AllInBounds cs × EachInBounds css

module _ (k : Kernel) (p : Params) where
  abbrev pub ended : ℕ → Slot → List Call → History
  ended requests s cs = run k p (begun requests s.dev) cs

  -- The devices after the calls on each of them, the requests for memory counted on.
  unfoldable pub use_devices : ℕ → List Slot → List (List Call) → List Slot
  use_devices r [] css = []
  use_devices r (s ∷ ss) [] = s ∷ ss
  use_devices r (s ∷ ss) (cs ∷ css) =
      let h = ended r s cs in record s { dev = h.dev } ∷ use_devices h.requests ss css

  -- Each device holds the file that the calls on it made.
  unfoldable pub AllFiles : ℕ → List Slot → List (List Call) → Type 0
  AllFiles r [] css = Unit
  AllFiles r (s ∷ ss) [] = Unit
  AllFiles r (s ∷ ss) (cs ∷ css) = let h = ended r s cs in IsFile h × AllFiles h.requests ss css

-- The module with the devices after the calls on them.
abbrev pub with_devices : Module → List Slot → Module
with_devices m ss = record m { devices = some ss }

-- What loading, any calls of `open`, `read` and `write` on each device, and unloading amount to.
pub record Lifetime (k : Kernel) (destroys : List Slot → Bool) (p : Params) (nr_devs : ℕ)
    (css : List (List Call)) (m : Module) : Type 0 where
  pub slots : List Slot
  pub devices : m.devices ≡ some slots
  pub all : length slots ≡ nr_devs
  pub files : AllFiles k p 0 slots css
  pub withdrawn :
      IsWithdrawn (scull_cleanup_module destroys p (with_devices m (use_devices k p 0 slots css)))
  pub cache :
      CacheEnd
        (use_devices k p 0 slots css)
        m
        (scull_cleanup_module destroys p (with_devices m (use_devices k p 0 slots css)))
  pub objects :
      (r : ℕ)
      → times r (all_held (use_devices k p 0 slots css)) + times r m.freed.objects
        ≡ times r
            (scull_cleanup_module destroys p
              (with_devices m (use_devices k p 0 slots css))).freed.objects
          + times r (all_left (use_devices k p 0 slots css))
  pub arrays :
      (scull_cleanup_module destroys p (with_devices m (use_devices k p 0 slots css))).freed.arrays
      ≡ all_arrays (use_devices k p 0 slots css) + m.freed.arrays
  pub sets :
      (scull_cleanup_module destroys p (with_devices m (use_devices k p 0 slots css))).freed.sets
      ≡ all_sets (use_devices k p 0 slots css) + m.freed.sets
