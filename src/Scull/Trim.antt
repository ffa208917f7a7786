-- ===== src/Scull/Trim.antt =====
-- What `__scull_trim` of scull/main.c gives back to the kernel, and what it does not.
use ldd3_workshop.Prelude.{
  ℕ, zero, suc, ◌+◌, ◌-◌, ◌^◌, ◌≤◌, ◌<◌, ◌≡◌, refl, ap, ◌∙◌, Option, none, some, List, [], ◌∷◌,
  ◌++◌, arith, get_or, length, take, drop, times, times-append, sub64, Option-cases, inl, inr,
}
use ldd3_workshop.Scull.Device.{
  Quantum, Qset, zeroed_qset, ScullDev, Params, objects_of, trim_sets, trim,
}

-- The objects behind an array, which may be missing.
abbrev pub array_objects : Option (List (Option Quantum)) → List ℕ
array_objects none = []
array_objects (some a) = objects_of a

-- All objects that a chain of sets holds.
unfoldable pub held : List Qset → List ℕ
held [] = []
held (q ∷ qs) = array_objects q.quanta ++ held qs

abbrev pub array_rest : ℕ → Option (List (Option Quantum)) → List ℕ
array_rest n none = []
array_rest n (some a) = objects_of (drop n a)

-- The objects that stand behind the first `n` pointers of each array.
unfoldable pub left_over : ℕ → List Qset → List ℕ
left_over n [] = []
left_over n (q ∷ qs) = array_rest n q.quanta ++ left_over n qs

abbrev pub is_array : Option (List (Option Quantum)) → ℕ
is_array none = 0
is_array (some a) = 1

unfoldable pub arrays : List Qset → ℕ
arrays [] = 0
arrays (q ∷ qs) = is_array q.quanta + arrays qs

objects_split :
    (n r : ℕ) (a : List (Option Quantum))
    → times r (objects_of a) ≡ times r (objects_of (take n a)) + times r (objects_of (drop n a))
objects_split zero r a = omega arith
objects_split (suc n) r [] = omega arith
objects_split (suc n) r (none ∷ a) = objects_split n r a
objects_split (suc n) r (some q ∷ a) = omega (arith, objects_split n r a)

-- Everything that the chain holds is given back once, but what stands behind the pointers that
-- `kmem_cache_free_bulk` is not given.
trim_sets_lem :
    (n : ℕ) (c : List Qset)
    → let freed = trim_sets n c in
      ((r : ℕ) → times r (held c) ≡ times r freed.objects + times r (left_over n c))
      × (freed.arrays ≡ arrays c)
      × (freed.sets ≡ length c)
unfolding trim_sets held left_over arrays
trim_sets_lem n [] = (λ r. refl, refl, refl)
trim_sets_lem n (q ∷ qs) = elim (Option-cases q.quanta) [
  | inl e ↦ let ih = trim_sets_lem n qs in rw e (ih.0, omega (arith, ih.1), omega (arith, ih.2))
  | inr (a, e) ↦
      let ih = trim_sets_lem n qs in
      rw e (
        λ r. omega (
          arith,
          ih.0 r,
          objects_split n r a,
          times-append r (objects_of a) (held qs),
          times-append r (objects_of (take n a)) (trim_sets n qs).objects,
          times-append r (objects_of (drop n a)) (left_over n qs),
        ),
        omega (arith, ih.1),
        omega (arith, ih.2),
      )
]

-- `__scull_trim` leaves an empty device with the sizes of the module parameters. It gives back
-- every set and every array, and each object that the device held as often as it held it, but for
-- those behind the last pointer of an array (`qset_len - 1` pointers of each are passed on).
pub trim_lem :
    (p : Params) (dev : ScullDev)
    → 0 < dev.qset_len
    → dev.qset_len < 2 ^ 64
    → let (freed, dev') = trim p dev in
      ((r : ℕ)
        → times r (held dev.qset)
          ≡ times r freed.objects + times r (left_over (dev.qset_len - 1) dev.qset))
      × (freed.arrays ≡ arrays dev.qset)
      × (freed.sets ≡ length dev.qset)
      × (held dev'.qset ≡ [])
      × (dev'.len ≡ 0)
      × (dev'.quantum_len ≡ p.scull_quantum)
      × (dev'.qset_len ≡ p.scull_qset)
unfolding trim held
trim_lem p dev pos small =
    let e : sub64 dev.qset_len 1 ≡ dev.qset_len - 1 = omega arith in
    let (objs, arrs, sets) = trim_sets_lem (sub64 dev.qset_len 1) dev.qset in
    (
      λ r.
          objs r
          ∙ ap
              (λ (m : ℕ).
                times r (trim_sets (sub64 dev.qset_len 1) dev.qset).objects
                + times r (left_over m dev.qset))
              e,
      arrs,
      sets,
      refl,
      refl,
      refl,
      refl,
    )

first_dropped :
    (n : ℕ) (a : List (Option Quantum)) (q : Quantum)
    → get_or a n none ≡ some q
    → 1 ≤ times q.request (objects_of (drop n a))
first_dropped zero [] q l = cc
first_dropped zero (none ∷ a) q l = cc
first_dropped zero (some x ∷ a) q l =
    let e : x ≡ q = cc in ground (arith, ap (λ (o : Quantum). o.request) e)
first_dropped (suc n) [] q l = cc
first_dropped (suc n) (x ∷ a) q l = first_dropped n a q l

last_left :
    (n i : ℕ) (c : List Qset) (a : List (Option Quantum)) (q : Quantum)
    → (get_or c i zeroed_qset).quanta ≡ some a
    → get_or a n none ≡ some q
    → 1 ≤ times q.request (left_over n c)
unfolding left_over
last_left n i [] a q h l = cc
last_left n zero (x ∷ qs) a q h l = rw (h, times-append) (omega (arith, first_dropped n a q l))
last_left n (suc i) (x ∷ qs) a q h l = rw times-append (omega (arith, last_left n i qs a q h l))

-- The object behind the last pointer of an array is leaked: it is given back less often than the
-- device held it.
pub trim_leaks :
    (p : Params) (dev : ScullDev) (i : ℕ) (a : List (Option Quantum)) (q : Quantum)
    → 0 < dev.qset_len
    → dev.qset_len < 2 ^ 64
    → (get_or dev.qset i zeroed_qset).quanta ≡ some a
    → get_or a (dev.qset_len - 1) none ≡ some q
    → times q.request (trim p dev).0.objects < times q.request (held dev.qset)
trim_leaks p dev i a q pos small h l =
    omega (
      arith,
      (trim_lem p dev pos small).0 q.request,
      last_left (dev.qset_len - 1) i dev.qset a q h l,
    )
