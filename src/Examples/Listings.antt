-- ===== src/Examples/Listings.antt =====
-- What /proc/scullmem (scull/proc.c) shows of small devices.
use ldd3_workshop.Prelude.{ℕ, ◌≡◌, refl, Bool, false, none, some, [], ◌∷◌, arith, ltb}
use ldd3_workshop.Scull.Device.{Quantum, ScullDev}
use ldd3_workshop.Scull.Proc.{scull_seq_show}
use ldd3_workshop.Scull.Listing.{scull_seq_show_overreads}
use ldd3_workshop.Examples.Base.{user_bytes}

abbrev is_low : ℕ → Bool
is_low c = ltb c 102

abbrev quantum : Quantum
quantum = record { request = 7; bytes = user_bytes }

-- One set, with one quantum of four bytes.
abbrev small_dev : ℕ → ScullDev
small_dev len = record {
  qset = record { quanta = some (none ∷ some quantum ∷ []) } ∷ [];
  quantum_len = 4;
  qset_len = 2;
  len = len;
}

scull_seq_show_overreads_example : scull_seq_show is_low false 0 (small_dev 8) ≡ none
scull_seq_show_overreads_example =
    scull_seq_show_overreads is_low 0 (small_dev 8) [] (none ∷ some quantum ∷ []) quantum 1 refl
      (omega arith) refl (omega arith)
