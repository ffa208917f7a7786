-- ===== src/Scull/Device.antt =====
-- The data of scull/scull.h: quantum sets, the device, a position in it, and emptying it
-- (`__scull_trim` and `scull_open` of scull/main.c).
use ldd3_workshop.Prelude.{
  ℕ, ◌+◌, ◌%◌, Bool, Option, none, some, List, [], ◌∷◌, ◌++◌, ◌==◌, if◌then◌else◌, sub64, take,
}
use ldd3_workshop.Kernel.{Bytes, Ret, ok, err, erestartsys}

-- A memory area from the cache `kmc`, with the number of the request that allocated it. Its size is that
-- of the objects of the cache, which is not noted here: what is read or written of it ends at
-- `quantum_len` of its device, which Scull/Control compares with the size of the objects.
pub record Quantum : Type 0 where
  pub request : ℕ
  pub bytes : Bytes

-- `struct scull_qset`: `quanta` is the array `data`, `none` for a NULL pointer. The field `next`
-- is the tail of the list in which the sets stand.
pub record Qset : Type 0 where
  pub quanta : Option (List (Option Quantum))

abbrev pub zeroed_qset : Qset
zeroed_qset = record { quanta = none }

-- `struct scull_dev` without its lock and its cdev: each operation below runs as a whole with the
-- lock held. `qset` is the chain of sets, `[]` for a NULL pointer.
pub record ScullDev : Type 0 where
  pub qset : List Qset
  pub quantum_len : ℕ
  pub qset_len : ℕ
  pub len : ℕ

-- `struct scull_follow`.
pub record Follow : Type 0 where
  pub qset_p : ℕ
  pub quantum_p : ℕ
  pub offset_p : ℕ

-- The module parameters that sizes are taken from.
pub record Params : Type 0 where
  pub scull_quantum : ℕ
  pub scull_qset : ℕ

-- What is given back to the kernel: objects of the cache, arrays and sets.
pub record Freed : Type 0 where
  pub objects : List ℕ
  pub arrays : ℕ
  pub sets : ℕ

-- The objects behind the pointers of an array that are not NULL.
abbrev pub objects_of : List (Option Quantum) → List ℕ
objects_of [] = []
objects_of (none ∷ a) = objects_of a
objects_of (some q ∷ a) = q.request ∷ objects_of a

-- The loop of `__scull_trim`: `n` is `dev->qset_len - 1`, the number of pointers that each call of
-- `kmem_cache_free_bulk` is given.
unfoldable pub trim_sets : ℕ → List Qset → Freed
trim_sets n [] = record { objects = []; arrays = 0; sets = 0 }
trim_sets n (q ∷ qs) =
    let rest = trim_sets n qs in
    elim q.quanta [
      | none ↦ record rest { sets = rest.sets + 1 }
      | some a ↦ record {
        objects = objects_of (take n a) ++ rest.objects;
        arrays = rest.arrays + 1;
        sets = rest.sets + 1;
      }
    ]

unfoldable pub trim : Params → ScullDev → Freed × ScullDev
trim p dev = (
  trim_sets (sub64 dev.qset_len 1) dev.qset,
  record { len = 0; quantum_len = p.scull_quantum; qset_len = p.scull_qset; qset = [] },
)

-- `O_ACCMODE` is 3 and `O_WRONLY` is 1, so `f_flags & O_ACCMODE` is the remainder by 4.
abbrev pub is_write_only : ℕ → Bool
is_write_only f_flags = f_flags % 4 == 1

abbrev pub nothing_freed : Freed
nothing_freed = record { objects = []; arrays = 0; sets = 0 }

-- `scull_open`; `interrupted` is the result of `mutex_lock_interruptible`.
unfoldable pub scull_open : Params → Bool → ℕ → ScullDev → Ret × Freed × ScullDev
unfolding trim
scull_open p interrupted f_flags dev =
    if is_write_only f_flags
    then if interrupted
      then (err erestartsys, nothing_freed, dev)
      else (let (freed, dev') = trim p dev in (ok 0, freed, dev'))
    else (ok 0, nothing_freed, dev)
