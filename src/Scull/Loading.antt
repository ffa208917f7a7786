-- ===== src/Scull/Loading.antt =====
-- What `scull_init_module` of scull/main.c leaves behind.
use ldd3_workshop.Prelude.{
  ℕ, zero, suc, ◌+◌, ◌*◌, ◌≡◌, ◌⊎◌, inl, inr, refl, Bool, true, false, not, ◌&&◌, if◌then◌else◌,
  none, some, List, [], ◌∷◌, ◌++◌, replicate, length, length-replicate, length-append, arith,
  Bool-cases, Option-cases,
}
use ldd3_workshop.Kernel.{Ret, ok, err, enomem}
use ldd3_workshop.Scull.Device.{Params}
use ldd3_workshop.Pipe.Setup.{PipeModule, scull_p_cleanup}
use ldd3_workshop.Scull.Setup.{
  Slot, Module, Answers, zeroed_slot, is_zeroed, joined, setup_devices, clean_devices,
  scull_cleanup_module, load, scull_init_module,
}

-- The module holds nothing of the kernel.
pub record IsUnloaded (m : Module) : Type 0 where
  pub no_region : m.region ≡ false
  pub no_devices : m.devices ≡ none
  pub no_cache : m.kmc ≡ none
  pub no_proc : m.proc ≡ false
  pub no_pipes : m.pipes.devices ≡ none

-- A device as it is after loading: empty, with the sizes of the parameters, its mutex ready, and its
-- character device set up.
pub record IsFresh (p : Params) (s : Slot) : Type 0 where
  pub empty : s.dev.qset ≡ []
  pub no_len : s.dev.len ≡ 0
  pub quantum : s.dev.quantum_len ≡ p.scull_quantum
  pub qset : s.dev.qset_len ≡ p.scull_qset
  pub mutex : s.mutex ≡ true
  pub cdev : is_zeroed s.cdev ≡ false

unfoldable pub AllFresh : Params → List Slot → Type 0
AllFresh p [] = zero ≡ zero
AllFresh p (s ∷ ss) = IsFresh p s × AllFresh p ss

pub record IsLoaded (p : Params) (nr_devs : ℕ) (m : Module) : Type 0 where
  pub slots : List Slot
  pub region : m.region ≡ true
  pub devices : m.devices ≡ some slots
  pub all : length slots ≡ nr_devs
  pub fresh : AllFresh p slots
  pub cache : m.kmc ≡ some p.scull_quantum
  pub proc : m.proc ≡ true

setup-AllFresh :
    (a : Answers) (p : Params) (n i : ℕ)
    → AllFresh p (setup_devices a p (replicate n zeroed_slot) i)
unfolding setup_devices AllFresh
setup-AllFresh a p zero i = refl
setup-AllFresh a p (suc n) i = (
  record {
    empty = refl;
    no_len = refl;
    quantum = refl;
    qset = refl;
    mutex = refl;
    cdev = elim (Option-cases (a.cdev_add (a.first + i))) [
      | inl e ↦ rw e refl
      | inr (x, e) ↦ rw e refl
    ];
  },
  setup-AllFresh a p n (i + 1),
)

length-setup_devices :
    (a : Answers) (p : Params) (ss : List Slot) (i : ℕ)
    → length (setup_devices a p ss i) ≡ length ss
unfolding setup_devices
length-setup_devices a p [] i = refl
length-setup_devices a p (s ∷ ss) i = omega (arith, length-setup_devices a p ss (i + 1))

-- Each zeroed device gives two faults.
length-clean_devices :
    (p : Params) (n : ℕ) → length (clean_devices p (replicate n zeroed_slot)).1 ≡ 2 * n
unfolding clean_devices
length-clean_devices p zero = omega arith
length-clean_devices p (suc n) = omega (arith, length-clean_devices p n)

-- How many faults a load meets.
abbrev pub load_faults : Answers → ℕ → ℕ
load_faults a nr_devs = elim a.register_region [
  | some _ ↦ 0
  | none ↦ if a.kcalloc && not a.cache_create then 2 * nr_devs else 0
]

abbrev pub is_error : Ret → Bool
is_error (ok _) = false
is_error (err _) = true

abbrev pub LoadEnd : Answers → Params → ℕ → Module → Ret × Module → Type 0
LoadEnd a p n m (ret, m') =
    (((ret ≡ ok 0) × IsLoaded p n m') ⊎ ((is_error ret ≡ true) × IsUnloaded m'))
    × (length m'.faults ≡ load_faults a n + length m.faults)

by_eq :
    (a : Answers) (p : Params) (n : ℕ) (m : Module) {r r' : Ret × Module}
    → LoadEnd a p n m r'
    → r ≡ r'
    → LoadEnd a p n m r
by_eq a p n m t e = rw e t

pub scull_p_cleanup-devices : (m : PipeModule) → (scull_p_cleanup m).devices ≡ none
unfolding scull_p_cleanup
scull_p_cleanup-devices m = elim (Option-cases m.devices) [
  | inl e ↦ ground arith
  | inr (_, e) ↦ ground arith
]

-- The module at the end of `scull_cleanup_module`.
abbrev pub cleaned : Module → Module
cleaned m = record m {
  devices = none;
  proc = false;
  region = false;
  pipes = scull_p_cleanup m.pipes;
}

pub cleaned-IsUnloaded : (m : Module) → m.kmc ≡ none → IsUnloaded (cleaned m)
cleaned-IsUnloaded m e = record {
  no_region = refl;
  no_devices = refl;
  no_cache = e;
  no_proc = refl;
  no_pipes = scull_p_cleanup-devices m.pipes;
}

-- What is added to the faults where the cache is refused.
abbrev refused_faults : Params → ℕ → Module → Module
refused_faults p n m =
    let (freed, faults) = clean_devices p (replicate n zeroed_slot) in
    record m { freed = joined freed m.freed; faults = faults ++ m.faults; kmc = none }

load-LoadEnd :
    (a : Answers) (p : Params) (nr_devs p_nr_devs : ℕ) (m : Module)
    → a.register_region ≡ none
    → IsUnloaded m
    → LoadEnd a p nr_devs m (load a p nr_devs p_nr_devs (record m { region = true }))
unfolding load scull_cleanup_module
load-LoadEnd a p nr_devs p_nr_devs m granted free = elim (Bool-cases a.kcalloc) [
  | inr short ↦
      by_eq a p nr_devs m {r' = (err enomem, cleaned m)}
        (inr (refl, cleaned-IsUnloaded m free.no_cache), ground arith) (ground arith)
  | inl fine ↦ elim (Bool-cases a.cache_create) [
    | inr short ↦
        by_eq a p nr_devs m {r' = (err enomem, cleaned (refused_faults p nr_devs m))}
          (
            inr (refl, cleaned-IsUnloaded (refused_faults p nr_devs m) refl),
            ground (
              arith,
              length-append (clean_devices p (replicate nr_devs zeroed_slot)).1 m.faults,
              length-clean_devices p nr_devs,
            ),
          )
          (ground arith)
    | inl fine' ↦ (
      inl (
        ground arith,
        record {
          slots = setup_devices a p (replicate nr_devs zeroed_slot) 0;
          region = ground arith;
          devices = ground arith;
          all = omega (
            arith,
            length-setup_devices a p (replicate nr_devs zeroed_slot) 0,
            length-replicate nr_devs zeroed_slot,
          );
          fresh = setup-AllFresh a p nr_devs 0;
          cache = ground arith;
          proc = ground arith;
        },
      ),
      ground arith,
    )
  ]
]

-- Loading either returns 0, with all devices there, each empty, of the sizes of the parameters, its
-- mutex initialised and its character device set up, or it returns an error and holds nothing. It
-- meets no fault, but for the case in which only the cache is refused: `scull_cleanup_module` then
-- locks the mutex and deletes the character device of every device before either is initialised,
-- which is two faults for each device.
pub scull_init_module_lem :
    (a : Answers) (p : Params) (nr_devs p_nr_devs : ℕ) (m : Module)
    → IsUnloaded m
    → LoadEnd a p nr_devs m (scull_init_module a p nr_devs p_nr_devs m)
unfolding scull_init_module
scull_init_module_lem a p nr_devs p_nr_devs m free = elim (Option-cases a.register_region) [
  | inr (e, refused) ↦
      by_eq a p nr_devs m {r' = (err e, m)} (inr (refl, free), ground arith) (ground arith)
  | inl fine ↦ by_eq a p nr_devs m (load-LoadEnd a p nr_devs p_nr_devs m fine free) (ground arith)
]
