-- ===== src/Scull/Meminfo.antt =====
-- `__scull_meminfo` of scull/main.c: the two sums that are printed about a device, where pointers
-- have 64 bits.
use ldd3_workshop.Prelude.{
  ℕ, ◌+◌, ◌*◌, ◌%◌, ◌^◌, ◌≡◌, Option, none, some, List, [], ◌∷◌, length, arith, add64, Option-cases,
  inl, inr,
}
use ldd3_workshop.Scull.Device.{Quantum, Qset, ScullDev}
use ldd3_workshop.Scull.Trim.{arrays}

-- `tmem` and `mem`.
pub record Meminfo : Type 0 where
  pub tmem : ℕ
  pub mem : ℕ

-- The sizes of a set and of a pointer.
abbrev pub sizeof_qset : ℕ
sizeof_qset = 16

abbrev pub sizeof_pointer : ℕ
sizeof_pointer = 8

abbrev pub enlarged : ℕ → ℕ → Meminfo → Meminfo
enlarged t m i = record { tmem = add64 i.tmem t; mem = add64 i.mem m }

-- Lines 143 to 148: up to the first pointer that is NULL.
unfoldable pub sum_slots : ScullDev → List (Option Quantum) → Meminfo → Meminfo
sum_slots dev [] i = i
sum_slots dev (none ∷ a) i = i
sum_slots dev (some qu ∷ a) i = sum_slots dev a (enlarged dev.quantum_len sizeof_pointer i)

-- Lines 135 to 149.
unfoldable pub sum_sets : ScullDev → List Qset → Meminfo → Meminfo
sum_sets dev [] i = i
sum_sets dev (q ∷ qs) i =
    let i' = enlarged sizeof_qset sizeof_qset i in
    sum_sets dev qs (elim q.quanta [
      | none ↦ i'
      | some a ↦ sum_slots dev a (enlarged (dev.qset_len * sizeof_pointer % 2 ^ 64) dev.len i')
    ])

unfoldable pub scull_meminfo : ScullDev → Meminfo
scull_meminfo dev = sum_sets dev dev.qset (record { tmem = 0; mem = 0 })

-- The pointers of an array before the first NULL.
unfoldable pub leading : List (Option Quantum) → ℕ
leading [] = 0
leading (none ∷ a) = 0
leading (some qu ∷ a) = 1 + leading a

abbrev pub array_leading : Option (List (Option Quantum)) → ℕ
array_leading none = 0
array_leading (some a) = leading a

unfoldable pub all_leading : List Qset → ℕ
all_leading [] = 0
all_leading (q ∷ qs) = array_leading q.quanta + all_leading qs

abbrev Sums : ℕ → ℕ → Meminfo → Meminfo → Type 0
Sums t m i i' =
    (i'.tmem % 2 ^ 64 ≡ (i.tmem + t) % 2 ^ 64) × (i'.mem % 2 ^ 64 ≡ (i.mem + m) % 2 ^ 64)

module _ (dev : ScullDev) where
  sum_slots_lem :
      (a : List (Option Quantum)) (i : Meminfo)
      → Sums (leading a * dev.quantum_len) (leading a * 8) i (sum_slots dev a i)
  unfolding sum_slots leading
  sum_slots_lem [] i = (omega arith, omega arith)
  sum_slots_lem (none ∷ a) i = (omega arith, omega arith)
  sum_slots_lem (some qu ∷ a) i =
      let (t, m) = sum_slots_lem a (enlarged dev.quantum_len sizeof_pointer i) in
      (omega (arith, t), omega (arith, m))

  sum_sets_lem :
      (qs : List Qset) (i : Meminfo)
      → Sums
          (16 * length qs + arrays qs * (dev.qset_len * 8) + all_leading qs * dev.quantum_len)
          (16 * length qs + arrays qs * dev.len + all_leading qs * 8)
          i
          (sum_sets dev qs i)
  unfolding sum_sets arrays all_leading
  sum_sets_lem [] i = (omega arith, omega arith)
  sum_sets_lem (q ∷ qs) i = elim (Option-cases q.quanta) [
    | inl e ↦
        (let (t, m) = sum_sets_lem qs (enlarged sizeof_qset sizeof_qset i) in
          rw e (omega (arith, t), omega (arith, m)))
    | inr (a, e) ↦
        (let i' =
            enlarged (dev.qset_len * sizeof_pointer % 2 ^ 64) dev.len
              (enlarged sizeof_qset sizeof_qset i) in
          let (t', m') = sum_slots_lem a i' in
          let (t, m) = sum_sets_lem qs (sum_slots dev a i') in
          rw e (omega (arith, t, t'), omega (arith, m, m')))
  ]

-- As printed, the whole memory is that of the sets, of the arrays and of the quanta before the first
-- NULL of each array. The used memory has the sets, a pointer for each of these quanta, and the
-- length of the device not once, but once for each array. Both sums wrap at 2 ^ 64.
pub scull_meminfo_lem :
    (dev : ScullDev)
    → let i = scull_meminfo dev in
      let sets = 16 * length dev.qset in
      (i.tmem % 2 ^ 64
        ≡ (sets + arrays dev.qset * (dev.qset_len * 8) + all_leading dev.qset * dev.quantum_len)
          % 2 ^ 64)
      × (i.mem % 2 ^ 64 ≡ (sets + arrays dev.qset * dev.len + all_leading dev.qset * 8) % 2 ^ 64)
unfolding scull_meminfo
scull_meminfo_lem dev =
    let (t, m) = sum_sets_lem dev dev.qset (record { tmem = 0; mem = 0 }) in
    (omega (arith, t), omega (arith, m))
