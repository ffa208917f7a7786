-- ===== src/Scull/Unloading.antt =====
-- What `scull_cleanup_module` of scull/main.c gives back.
use ldd3_workshop.Prelude.{
  ℕ, zero, ◌+◌, ◌-◌, ◌^◌, ◌<◌, ◌≡◌, refl, ap, true, false, none, some, List, [], ◌∷◌, ◌++◌, length,
  times, times-append, arith, Bool, ◌⊎◌, inl, inr, Bool-cases,
}
use ldd3_workshop.Scull.Device.{Params, trim}
use ldd3_workshop.Scull.Trim.{held, left_over, arrays, trim_lem}
use ldd3_workshop.Scull.Setup.{
  Slot, Fault, cache_in_use, Module, is_zeroed, joined, clean_devices, scull_cleanup_module,
}
use ldd3_workshop.Scull.Loading.{cleaned, scull_p_cleanup-devices}

-- A device in use: its mutex and character device are set up, and its arrays have a size.
pub record IsLive (s : Slot) : Type 0 where
  pub mutex : s.mutex ≡ true
  pub cdev : is_zeroed s.cdev ≡ false
  pub some_qset : 0 < s.dev.qset_len
  pub small_qset : s.dev.qset_len < 2 ^ 64

unfoldable pub AllLive : List Slot → Type 0
AllLive [] = zero ≡ zero
AllLive (s ∷ ss) = IsLive s × AllLive ss

-- What all devices hold, and what of it stands behind the last pointers of arrays.
unfoldable pub all_held : List Slot → List ℕ
all_held [] = []
all_held (s ∷ ss) = held s.dev.qset ++ all_held ss

unfoldable pub all_left : List Slot → List ℕ
all_left [] = []
all_left (s ∷ ss) = left_over (s.dev.qset_len - 1) s.dev.qset ++ all_left ss

unfoldable pub all_arrays : List Slot → ℕ
all_arrays [] = 0
all_arrays (s ∷ ss) = arrays s.dev.qset + all_arrays ss

unfoldable pub all_sets : List Slot → ℕ
all_sets [] = 0
all_sets (s ∷ ss) = length s.dev.qset + all_sets ss

clean_devices_lem :
    (p : Params) (ss : List Slot)
    → AllLive ss
    → let (freed, faults) = clean_devices p ss in
      ((r : ℕ) → times r (all_held ss) ≡ times r freed.objects + times r (all_left ss))
      × (freed.arrays ≡ all_arrays ss)
      × (freed.sets ≡ all_sets ss)
      × (faults ≡ [])
unfolding clean_devices AllLive all_held all_left all_arrays all_sets
clean_devices_lem p [] live = (λ r. refl, refl, refl, refl)
clean_devices_lem p (s ∷ ss) (here, there) =
    let (objs, arrs, sets, none_left) = clean_devices_lem p ss there in
    let t = trim_lem p s.dev here.some_qset here.small_qset in
    (
      λ r. omega (
        arith,
        objs r,
        t.0 r,
        times-append r (held s.dev.qset) (all_held ss),
        times-append r (trim p s.dev).0.objects (clean_devices p ss).0.objects,
        times-append r (left_over (s.dev.qset_len - 1) s.dev.qset) (all_left ss),
      ),
      omega (arith, arrs, t.1),
      omega (arith, sets, t.2),
      rw (here.mutex, here.cdev, none_left) refl,
    )

-- What `kmem_cache_destroy` is documented to need: it destroys no cache of which an object was not given
-- back, such as those behind the last pointers.
abbrev pub NeedsAllFreed : (List Slot → Bool) → Type 0
NeedsAllFreed destroys = (ss : List Slot) → destroys ss ≡ true → all_left ss ≡ []

-- The module holds nothing of the kernel but perhaps the cache.
pub record IsWithdrawn (m : Module) : Type 0 where
  pub no_region : m.region ≡ false
  pub no_devices : m.devices ≡ none
  pub no_proc : m.proc ≡ false
  pub no_pipes : m.pipes.devices ≡ none

-- What becomes of the cache: it is destroyed, where no object was left behind a last pointer, or it
-- stays for ever, and its destruction was a fault.
abbrev pub CacheEnd : List Slot → Module → Module → Type 0
CacheEnd ss m m' =
    ((all_left ss ≡ []) × (m'.kmc ≡ none) × (m'.faults ≡ m.faults))
    ⊎ ((m'.kmc ≡ m.kmc) × (m'.faults ≡ cache_in_use ∷ m.faults))

-- Unloading a module whose devices are in use leaves nothing of it but perhaps the cache, which stays,
-- with a fault, at least where an object is left behind the last pointer of an array; there is no other
-- fault. It gives back every set and every array of every device, and each object as often as a device
-- held it, but for those behind the last pointer of an array.
pub scull_cleanup_module_lem :
    (destroys : List Slot → Bool) (p : Params) (m : Module) (ss : List Slot) (size : ℕ)
    → NeedsAllFreed destroys
    → m.devices ≡ some ss
    → m.kmc ≡ some size
    → AllLive ss
    → let m' = scull_cleanup_module destroys p m in
      IsWithdrawn m'
      × CacheEnd ss m m'
      × ((r : ℕ)
          → times r (all_held ss) + times r m.freed.objects
            ≡ times r m'.freed.objects + times r (all_left ss))
      × (m'.freed.arrays ≡ all_arrays ss + m.freed.arrays)
      × (m'.freed.sets ≡ all_sets ss + m.freed.sets)
unfolding scull_cleanup_module
scull_cleanup_module_lem destroys p m ss size needs e there live =
    let (objs, arrs, sets, none_left) = clean_devices_lem p ss live in
    let (freed, faults) = clean_devices p ss in
    let m₁ = record m {
      devices = none;
      freed = joined freed m.freed;
      faults = faults ++ m.faults;
    } in
    let no_fault : faults ++ m.faults ≡ m.faults =
      ap (λ (l : List Fault). l ++ m.faults) none_left in
    let counts : (r : ℕ)
        → times r (all_held ss) + times r m.freed.objects
          ≡ times r (freed.objects ++ m.freed.objects) + times r (all_left ss) =
      λ r. omega (arith, objs r, times-append r freed.objects m.freed.objects) in
    elim (Bool-cases (destroys ss)) [
      | inl gone ↦
          (let same : scull_cleanup_module destroys p m ≡ cleaned (record m₁ { kmc = none }) =
              ground arith in
            rw same (
              withdrawn (record m₁ { kmc = none }),
              inl (needs ss gone, refl, no_fault),
              counts,
              omega (arith, arrs),
              omega (arith, sets),
            ))
      | inr stays ↦
          (let m₂ = record m₁ { faults = cache_in_use ∷ (faults ++ m.faults) } in
            let same : scull_cleanup_module destroys p m ≡ cleaned m₂ = ground arith in
            rw same (
              withdrawn m₂,
              inr (refl, ap (λ (l : List Fault). cache_in_use ∷ l) no_fault),
              counts,
              omega (arith, arrs),
              omega (arith, sets),
            ))
    ]
  where
    withdrawn : (m : Module) → IsWithdrawn (cleaned m)
    withdrawn m = record {
      no_region = refl;
      no_devices = refl;
      no_proc = refl;
      no_pipes = scull_p_cleanup-devices m.pipes;
    }
