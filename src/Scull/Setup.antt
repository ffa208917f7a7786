-- ===== src/Scull/Setup.antt =====
-- `scull_init_module` and `scull_cleanup_module` of scull/main.c.
use ldd3_workshop.Prelude.{
  ℕ, ◌+◌, Bool, true, false, not, Option, none, some, List, [], ◌∷◌, ◌++◌, replicate, if◌then◌else◌,
}
use ldd3_workshop.Kernel.{Errno, Ret, ok, err, enomem}
use ldd3_workshop.Scull.Device.{ScullDev, Params, Freed, nothing_freed, trim}
use ldd3_workshop.Pipe.Setup.{
  Cdev, zeroed, ready, added, PipeModule, PipeAnswers, scull_p_init, scull_p_cleanup,
}

-- A device with its mutex, which is initialised or not, and its character device.
pub record Slot : Type 0 where
  pub dev : ScullDev
  pub mutex : Bool
  pub cdev : Cdev

-- A lock of a mutex that was never initialised, a deletion of a character device that was not, and a
-- destruction of a cache whose objects are not all given back, which the kernel refuses.
pub data Fault : Type 0 where
  no_mutex no_cdev cache_in_use : Fault

-- The variables of the module: whether its device numbers are registered, the devices, the cache with
-- the size of its objects, whether the file below /proc is there, the pipe devices, what was given
-- back so far, and the faults.
pub record Module : Type 0 where
  pub region : Bool
  pub devices : Option (List Slot)
  pub kmc : Option ℕ
  pub proc : Bool
  pub pipes : PipeModule
  pub freed : Freed
  pub faults : List Fault

-- What the kernel answers: `none` and `true` are success. `first` is the first device number, and
-- `pipe_first` the one for the pipe devices.
pub record Answers : Type 0 where
  pub register_region : Option Errno
  pub kcalloc : Bool
  pub cache_create : Bool
  pub cdev_add : ℕ → Option Errno
  pub first : ℕ
  pub pipe_first : ℕ
  pub pipe_answers : PipeAnswers

-- A device after `kcalloc`.
abbrev pub zeroed_slot : Slot
zeroed_slot = record {
  dev = record { qset = []; quantum_len = 0; qset_len = 0; len = 0 };
  mutex = false;
  cdev = zeroed;
}

-- `scull_setup_cdev`: a failure of `cdev_add` is only printed.
abbrev pub scull_setup_cdev : Answers → ℕ → Slot → Slot
scull_setup_cdev a i s = record s {
  cdev = elim (a.cdev_add (a.first + i)) [ none ↦ added | some _ ↦ ready ];
}

-- Lines 317 to 322, from the index `i` on.
unfoldable pub setup_devices : Answers → Params → List Slot → ℕ → List Slot
setup_devices a p [] i = []
setup_devices a p (s ∷ ss) i =
    scull_setup_cdev a i (record s {
      dev = record s.dev { quantum_len = p.scull_quantum; qset_len = p.scull_qset };
      mutex = true;
    })
    ∷ setup_devices a p ss (i + 1)

abbrev pub joined : Freed → Freed → Freed
joined a b = record {
  objects = a.objects ++ b.objects;
  arrays = a.arrays + b.arrays;
  sets = a.sets + b.sets;
}

abbrev pub is_zeroed : Cdev → Bool
is_zeroed zeroed = true
is_zeroed ready = false
is_zeroed added = false

-- The faults of lines 250 to 253.
abbrev pub slot_faults : Slot → List Fault
slot_faults s =
    (if s.mutex then [] else no_mutex ∷ []) ++ (if is_zeroed s.cdev then no_cdev ∷ [] else [])

-- Lines 247 to 254.
unfoldable pub clean_devices : Params → List Slot → Freed × List Fault
clean_devices p [] = (nothing_freed, [])
clean_devices p (s ∷ ss) =
    let (freed, faults) = clean_devices p ss in
    (joined (trim p s.dev).0 freed, slot_faults s ++ faults)

-- The label `final`.
abbrev pub final : Module → Module
final m = record m { proc = false; region = false; pipes = scull_p_cleanup m.pipes }

-- Lines 257 and 258. `destroyed` is whether `kmem_cache_destroy` destroys the cache.
abbrev pub destroy_cache : Bool → Module → Module
destroy_cache destroyed m = elim m.kmc [
  | none ↦ m
  | some size ↦
      if destroyed then record m { kmc = none } else record m { faults = cache_in_use ∷ m.faults }
]

-- `destroys` is what `kmem_cache_destroy` does, from the devices as they were before.
unfoldable pub scull_cleanup_module : (List Slot → Bool) → Params → Module → Module
scull_cleanup_module destroys p m = elim m.devices [
  | none ↦ final m
  | some ss ↦
      (let (freed, faults) = clean_devices p ss in
        final (
          destroy_cache (destroys ss) (record m {
            devices = none;
            freed = joined freed m.freed;
            faults = faults ++ m.faults;
          })))
]

-- The label `fail`, where there is no cache to be destroyed.
abbrev pub fail : Params → Ret → Module → Ret × Module
fail p ret m = (ret, scull_cleanup_module (λ ss. true) p m)

-- Lines 302 to 332.
unfoldable pub load : Answers → Params → ℕ → ℕ → Module → Ret × Module
load a p nr_devs p_nr_devs m =
    let ss = replicate nr_devs zeroed_slot in
    if not a.kcalloc
    then fail p (err enomem) (record m { devices = none })
    else if not a.cache_create
    then fail p (err enomem) (record m { devices = some ss; kmc = none })
    else (
      ok 0,
      record m {
        devices = some (setup_devices a p ss 0);
        kmc = some p.scull_quantum;
        pipes = (scull_p_init a.pipe_answers p_nr_devs a.pipe_first m.pipes).1;
        proc = true;
      },
    )

unfoldable pub scull_init_module : Answers → Params → ℕ → ℕ → Module → Ret × Module
scull_init_module a p nr_devs p_nr_devs m = elim a.register_region [
  | some e ↦ (err e, m)
  | none ↦ load a p nr_devs p_nr_devs (record m { region = true })
]
