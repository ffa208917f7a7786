-- ===== src/Scull/Content.antt =====
-- The bytes that a scull device holds, as a partial function of the file position: the abstract
-- view of the chain of sets of scull/main.c.
use ldd3_workshop.Prelude.{
  ℕ, ◌<◌, ◌≡◌, ◌≢◌, ap, Option, none, some, List, get_or, set, length, get_or-set_self,
  get_or-set_ne,
}
use ldd3_workshop.Scull.Device.{Quantum, Qset, zeroed_qset, ScullDev, Follow}
use ldd3_workshop.Scull.Io.{position}

abbrev pub slot : Option (List (Option Quantum)) → ℕ → Option Quantum
slot none j = none
slot (some a) j = get_or a j none

-- The quantum behind the pointer numbered `j` of the set numbered `i`.
unfoldable pub quantum_at : List Qset → ℕ → ℕ → Option Quantum
quantum_at c i j = slot (get_or c i zeroed_qset).quanta j

pub quantum_at-some :
    (c : List Qset) (i j : ℕ) {a : List (Option Quantum)}
    → (get_or c i zeroed_qset).quanta ≡ some a
    → quantum_at c i j ≡ get_or a j none
unfolding quantum_at
quantum_at-some c i j e = ap (λ q. slot q j) e

pub quantum_at-none :
    (c : List Qset) (i j : ℕ) → (get_or c i zeroed_qset).quanta ≡ none → quantum_at c i j ≡ none
unfolding quantum_at
quantum_at-none c i j e = ap (λ q. slot q j) e

abbrev pub byte_in : Option Quantum → ℕ → Option ℕ
byte_in none o = none
byte_in (some q) o = some (q.bytes o)

abbrev pub byte_of : List Qset → Follow → Option ℕ
byte_of c f = byte_in (quantum_at c f.qset_p f.quantum_p) f.offset_p

-- The byte at position `p` of the device, `none` in a hole.
unfoldable pub byte_at : ScullDev → ℕ → Option ℕ
byte_at dev p = byte_of dev.qset (position dev p)

-- Adding empty sets to the chain changes no byte.
pub byte_at_same :
    (dev : ScullDev) (c : List Qset)
    → ((i : ℕ) → get_or c i zeroed_qset ≡ get_or dev.qset i zeroed_qset)
    → (p : ℕ) → byte_at (record dev { qset = c }) p ≡ byte_at dev p
unfolding byte_at position quantum_at
byte_at_same dev c keeps p =
    let f = position dev p in
    ap (λ (q : Qset). byte_in (slot q.quanta f.quantum_p) f.offset_p) (keeps f.qset_p)

-- Every array has `qset_len` pointers.
abbrev pub IsWellFormed : ScullDev → Type 0
IsWellFormed dev =
    (i : ℕ) (a : List (Option Quantum))
    → (get_or dev.qset i zeroed_qset).quanta ≡ some a
    → length a ≡ dev.qset_len

abbrev pub stored : List Qset → Follow → List (Option Quantum) → Quantum → List Qset
stored c flw a qu = set c flw.qset_p (record { quanta = some (set a flw.quantum_p (some qu)) })

-- What storing a quantum in an array of a chain does to each slot.
module _ (c : List Qset) (flw : Follow) (a : List (Option Quantum)) (qu : Quantum)
    (hi : flw.qset_p < length c) (hj : flw.quantum_p < length a) where
  pub stored_self : quantum_at (stored c flw a qu) flw.qset_p flw.quantum_p ≡ some qu
  unfolding quantum_at
  stored_self =
      rw
        (get_or-set_self c flw.qset_p (record { quanta = some (set a flw.quantum_p (some qu)) })
          zeroed_qset hi)
        (get_or-set_self a flw.quantum_p (some qu) none hj)

  pub stored_same_set :
      (j : ℕ) → flw.quantum_p ≢ j → quantum_at (stored c flw a qu) flw.qset_p j ≡ get_or a j none
  unfolding quantum_at
  stored_same_set j h =
      rw
        (get_or-set_self c flw.qset_p (record { quanta = some (set a flw.quantum_p (some qu)) })
          zeroed_qset hi)
        (get_or-set_ne a (some qu) none h)

  pub stored_other_set :
      (i j : ℕ) → flw.qset_p ≢ i → quantum_at (stored c flw a qu) i j ≡ quantum_at c i j
  unfolding quantum_at
  stored_other_set i j h =
      ap (λ (q : Qset). slot q.quanta j)
        (get_or-set_ne c (record { quanta = some (set a flw.quantum_p (some qu)) }) zeroed_qset h)
