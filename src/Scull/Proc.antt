-- ===== src/Scull/Proc.antt =====
-- The file /proc/scullmem of scull/proc.c: which devices it shows, and what it prints of each.
use ldd3_workshop.Prelude.{
  ℕ, zero, suc, ◌+◌, ◌%◌, Bool, true, false, Option, none, some, List, [], ◌∷◌, ◌++◌, leb, ◌==◌,
  if◌then◌else◌, min, get_or,
}
use ldd3_workshop.Kernel.{Bytes, Ret, ok, err, erestartsys}
use ldd3_workshop.Scull.Device.{Quantum, Qset, ScullDev}

-- What `seq_printf` is called for: the line on a device, on a set (and whether it has an array), on
-- a quantum, a character, and a line end.
pub data Printed : Type 0 where
  device : ℕ → ℕ → ℕ → ℕ → Printed
  item : Bool → Printed
  pointer : ℕ → ℕ → Printed
  char : ℕ → Printed
  newline : Printed

-- `scull_seq_start`: a device stands as its index, and a NULL pointer as `none`.
unfoldable pub scull_seq_start : ℕ → ℕ → Option ℕ
scull_seq_start scull_nr_devs pos = if leb scull_nr_devs pos then none else some pos

-- `scull_seq_next`, with the new position.
unfoldable pub scull_seq_next : ℕ → ℕ → Option ℕ × ℕ
scull_seq_next scull_nr_devs pos =
    (if leb scull_nr_devs (pos + 1) then none else some (pos + 1), pos + 1)

-- How the kernel reads such a file: it shows what it has, and goes on until it gets NULL. The
-- first number bounds how often it goes on.
unfoldable pub seq_visits : ℕ → ℕ → Option ℕ × ℕ → List ℕ
seq_visits zero nr v = []
seq_visits (suc fuel) nr (none, pos) = []
seq_visits (suc fuel) nr (some d, pos) = d ∷ seq_visits fuel nr (scull_seq_next nr pos)

-- '.'.
abbrev pub dot : ℕ
dot = 46

module _ (iscntrl : ℕ → Bool) where
  abbrev pub shown_char : ℕ → ℕ
  shown_char c = if iscntrl c then dot else c

  -- The loop of `__scull_print_ascii` at the index `i`, with `n` bytes to go.
  unfoldable pub ascii_loop : Bytes → ℕ → ℕ → List Printed
  ascii_loop buf zero i = []
  ascii_loop buf (suc n) i =
      let rest = ascii_loop buf n (i + 1) in
      char (shown_char (buf i)) ∷ (if (i + 1) % 64 == 0 then newline ∷ rest else rest)

  -- `none` where it reads past the `size` bytes of the quantum, those that the device uses; the objects
  -- of the cache may be larger where an ioctl made the quanta smaller.
  unfoldable pub scull_print_ascii : ℕ → Bytes → ℕ → Option (List Printed)
  scull_print_ascii size buf data_len =
      let max_loop = min data_len 500 in
      if leb max_loop size then some (ascii_loop buf max_loop 0 ++ (newline ∷ [])) else none

  -- Lines 55 to 63, at the index `i`, with `n` pointers to go.
  unfoldable pub show_slots : ScullDev → List (Option Quantum) → ℕ → ℕ → Option (List Printed)
  show_slots dev a zero i = some []
  show_slots dev a (suc n) i =
      let rest = show_slots dev a n (i + 1) in
      elim (get_or a i none) [
        | none ↦ rest
        | some q ↦ elim (scull_print_ascii dev.quantum_len q.bytes dev.len) [
          | none ↦ none
          | some cs ↦ elim rest [ none ↦ none | some l ↦ some (pointer i q.request ∷ (cs ++ l)) ]
        ]
      ]

  -- Lines 52 to 64: only the last set is shown with its quanta.
  unfoldable pub show_sets : ScullDev → List Qset → Option (List Printed)
  show_sets dev [] = some []
  show_sets dev (q ∷ []) = elim q.quanta [
    | none ↦ some (item false ∷ [])
    | some a ↦ elim (show_slots dev a dev.qset_len 0) [
      | none ↦ none
      | some l ↦ some (item true ∷ l)
    ]
  ]
  show_sets dev (q ∷ q' ∷ qs) =
      let rest = show_sets dev (q' ∷ qs) in
      elim rest [
        | none ↦ none
        | some l ↦ some (item (elim q.quanta [ none ↦ false | some _ ↦ true ]) ∷ l)
      ]

  -- `idx` is the index of the device.
  unfoldable pub scull_seq_show : Bool → ℕ → ScullDev → Option (Ret × List Printed)
  scull_seq_show interrupted idx dev =
      if interrupted then some (err erestartsys, []) else elim (show_sets dev dev.qset) [
        | none ↦ none
        | some l ↦ some (ok 0, device idx dev.qset_len dev.quantum_len dev.len ∷ l)
      ]
