-- ===== src/Scull/Listing.antt =====
-- What /proc/scullmem (scull/proc.c) shows: all devices, the first bytes of each quantum of the
-- last set, and where it reads past a quantum.
use ldd3_workshop.Prelude.{
  ℕ, zero, suc, ◌+◌, ◌/◌, ◌%◌, ◌≤◌, ◌<◌, ◌≡◌, ◌≢◌, ◌⊎◌, refl, ap, ◌∙◌, Bool, true, false, Option,
  none, some, List, [], ◌∷◌, ◌++◌, leb, ◌==◌, arith, min, get_or, map, Bool-cases, Option-cases,
  inl, inr,
}
use ldd3_workshop.Kernel.{Bytes, ok}
use ldd3_workshop.Scull.Device.{Quantum, Qset, ScullDev}
use ldd3_workshop.Scull.Proc.{
  Printed, device, item, pointer, char, newline, scull_seq_start, scull_seq_next, seq_visits,
  shown_char, ascii_loop, scull_print_ascii, show_slots, show_sets, scull_seq_show,
}

-- The numbers from `i` on, `n` of them.
abbrev pub numbers : ℕ → ℕ → List ℕ
numbers i zero = []
numbers i (suc n) = i ∷ numbers (i + 1) n

visits_from :
    (nr fuel n pos : ℕ)
    → pos + n + 1 ≡ nr
    → n < fuel
    → seq_visits fuel nr (some pos, pos) ≡ pos ∷ numbers (pos + 1) n
unfolding seq_visits scull_seq_next
visits_from nr zero n pos e f = ground arith
visits_from nr (suc zero) zero pos e f = refl
visits_from nr (suc (suc fuel)) zero pos e f =
    let end : leb nr (pos + 1) ≡ true = ground arith in rw end
visits_from nr (suc fuel) (suc n) pos e f =
    let more : leb nr (pos + 1) ≡ false = ground arith in
    rw more (ap (λ l. pos ∷ l) (visits_from nr fuel n (pos + 1) (omega arith) (omega arith)))

-- Read from its start, the file shows every device once, in the order of their indices.
pub seq_visits_all :
    (scull_nr_devs fuel : ℕ)
    → scull_nr_devs < fuel
    → seq_visits fuel scull_nr_devs (scull_seq_start scull_nr_devs 0, 0) ≡ numbers 0 scull_nr_devs
unfolding seq_visits scull_seq_start
seq_visits_all zero zero f = elim f [ ]
seq_visits_all zero (suc fuel) f = refl
seq_visits_all (suc nr) fuel f =
    let more : leb (suc nr) 0 ≡ false = ground arith in
    rw more (visits_from (suc nr) fuel nr 0 (omega arith) (omega arith))

-- The characters printed, and the number of line ends.
abbrev pub chars : List Printed → List ℕ
chars [] = []
chars (char c ∷ l) = c ∷ chars l
chars (device _ _ _ _ ∷ l) = chars l
chars (item _ ∷ l) = chars l
chars (pointer _ _ ∷ l) = chars l
chars (newline ∷ l) = chars l

abbrev pub newlines : List Printed → ℕ
newlines [] = 0
newlines (newline ∷ l) = newlines l + 1
newlines (char _ ∷ l) = newlines l
newlines (device _ _ _ _ ∷ l) = newlines l
newlines (item _ ∷ l) = newlines l
newlines (pointer _ _ ∷ l) = newlines l

newlines-loop :
    (iscntrl : ℕ → Bool) (buf : Bytes) (n i : ℕ)
    → newlines (ascii_loop iscntrl buf n i ++ (newline ∷ [])) + i / 64 ≡ (i + n) / 64 + 1
unfolding ascii_loop
newlines-loop iscntrl buf zero i = omega arith
newlines-loop iscntrl buf (suc n) i =
    let ih = newlines-loop iscntrl buf n (i + 1) in
    elim (Bool-cases ((i + 1) % 64 == 0)) [
      | inl full ↦ rw full (ground arith)
      | inr more ↦ rw more (ground arith)
    ]

chars-loop :
    (iscntrl : ℕ → Bool) (buf : Bytes) (n i : ℕ)
    → chars (ascii_loop iscntrl buf n i ++ (newline ∷ []))
      ≡ map (λ j. shown_char iscntrl (buf j)) (numbers i n)
unfolding ascii_loop
chars-loop iscntrl buf zero i = refl
chars-loop iscntrl buf (suc n) i =
    let ih = chars-loop iscntrl buf n (i + 1) in
    elim (Bool-cases ((i + 1) % 64 == 0)) [
      | inl full ↦ rw full (ap (λ l. shown_char iscntrl (buf i) ∷ l) ih)
      | inr more ↦ rw more (ap (λ l. shown_char iscntrl (buf i) ∷ l) ih)
    ]

-- A quantum is printed as its first bytes, at most 500 and at most `data_len`, in order, with a dot
-- in place of each control character, and with a line end after each 64 characters and at the end.
-- It goes wrong exactly if the quantum has fewer bytes than that.
pub scull_print_ascii_lem :
    (iscntrl : ℕ → Bool) (size : ℕ) (buf : Bytes) (data_len : ℕ)
    → let n = min data_len 500 in
      ((l : List Printed) × (n ≤ size)
        × (scull_print_ascii iscntrl size buf data_len ≡ some l)
        × (chars l ≡ map (λ j. shown_char iscntrl (buf j)) (numbers 0 n))
        × (newlines l ≡ n / 64 + 1))
      ⊎ ((size < n) × (scull_print_ascii iscntrl size buf data_len ≡ none))
unfolding scull_print_ascii
scull_print_ascii_lem iscntrl size buf data_len =
    let n = min data_len 500 in
    elim (Bool-cases (leb n size)) [
      | inl fits ↦ inl (
        ascii_loop iscntrl buf n 0 ++ (newline ∷ []),
        ground arith,
        rw fits,
        chars-loop iscntrl buf n 0,
        omega (arith, newlines-loop iscntrl buf n 0),
      )
      | inr over ↦ inr (ground arith, rw over)
    ]

print_over :
    (iscntrl : ℕ → Bool) (size : ℕ) (buf : Bytes) (data_len : ℕ)
    → size < min data_len 500
    → scull_print_ascii iscntrl size buf data_len ≡ none
unfolding scull_print_ascii
print_over iscntrl size buf data_len over = ground arith

print_fits :
    (iscntrl : ℕ → Bool) (size : ℕ) (buf : Bytes) (data_len : ℕ)
    → min data_len 500 ≤ size
    → (l : List Printed) × (scull_print_ascii iscntrl size buf data_len ≡ some l)
unfolding scull_print_ascii
print_fits iscntrl size buf data_len fits =
    (ascii_loop iscntrl buf (min data_len 500) 0 ++ (newline ∷ []), ground arith)

module _ (iscntrl : ℕ → Bool) (dev : ScullDev) (a : List (Option Quantum)) where
  show_slots-none :
      (q : Quantum) (n i j : ℕ)
      → i ≤ j
      → j < i + n
      → get_or a j none ≡ some q
      → dev.quantum_len < min dev.len 500
      → show_slots iscntrl dev a n i ≡ none
  unfolding show_slots scull_print_ascii
  show_slots-none q zero i j le lt at over = ground arith
  show_slots-none q (suc n) i j le lt at over = elim (Option-cases (get_or a i none)) [
    | inl hole ↦
        (let ne : i ≢ j = λ e. ground (arith, ap (λ x. get_or a x none) e) in
          rw (show_slots, hole) (show_slots-none q n (i + 1) j (omega arith) (omega arith) at over))
    | inr (q', there) ↦
        (let bad : scull_print_ascii iscntrl dev.quantum_len q'.bytes dev.len ≡ none =
            print_over iscntrl dev.quantum_len q'.bytes dev.len over in
          rw (show_slots, there, bad) refl)
  ]

  show_slots-some :
      (n i : ℕ)
      → min dev.len 500 ≤ dev.quantum_len
      → (l : List Printed) × (show_slots iscntrl dev a n i ≡ some l)
  unfolding show_slots scull_print_ascii
  show_slots-some zero i fits = ([], refl)
  show_slots-some (suc n) i fits =
      let (l, e) = show_slots-some n (i + 1) fits in
      elim (Option-cases (get_or a i none)) [
        | inl hole ↦ (l, rw (show_slots, hole) e)
        | inr (q, there) ↦
            (let good = print_fits iscntrl dev.quantum_len q.bytes dev.len fits in
              (pointer i q.request ∷ (good.0 ++ l), rw (show_slots, there, good.1, e) refl))
      ]

  show_sets-none :
      (q : Quantum) (c : List Qset) (j : ℕ)
      → j < dev.qset_len
      → get_or a j none ≡ some q
      → dev.quantum_len < min dev.len 500
      → show_sets iscntrl dev (c ++ (record { quanta = some a } ∷ [])) ≡ none
  unfolding show_sets
  show_sets-none q [] j lt at over =
      rw (show_sets, show_slots-none q dev.qset_len 0 j (omega arith) (omega arith) at over) refl
  show_sets-none q (x ∷ []) j lt at over = rw (show_sets, show_sets-none q [] j lt at over) refl
  show_sets-none q (x ∷ y ∷ c) j lt at over =
      rw (show_sets, show_sets-none q (y ∷ c) j lt at over) refl

show_sets-some :
    (iscntrl : ℕ → Bool) (dev : ScullDev) (c : List Qset)
    → min dev.len 500 ≤ dev.quantum_len
    → (l : List Printed) × (show_sets iscntrl dev c ≡ some l)
unfolding show_sets
show_sets-some iscntrl dev [] fits = ([], refl)
show_sets-some iscntrl dev (x ∷ []) fits = elim (Option-cases x.quanta) [
  | inl bare ↦ (item false ∷ [], rw (show_sets, bare) refl)
  | inr (a, full) ↦
      (let (l, e) = show_slots-some iscntrl dev a dev.qset_len 0 fits in
        (item true ∷ l, rw (show_sets, full, e) refl))
]
show_sets-some iscntrl dev (x ∷ y ∷ c) fits =
    let (l, e) = show_sets-some iscntrl dev (y ∷ c) fits in
    (item (elim x.quanta [ none ↦ false | some _ ↦ true ]) ∷ l, rw (show_sets, e) refl)

-- Where the quanta have as many bytes as are printed of one, the file shows the device, with its
-- sizes first.
pub scull_seq_show-ok :
    (iscntrl : ℕ → Bool) (idx : ℕ) (dev : ScullDev)
    → min dev.len 500 ≤ dev.quantum_len
    → (l : List Printed) × (scull_seq_show iscntrl false idx dev
        ≡ some (ok 0, device idx dev.qset_len dev.quantum_len dev.len ∷ l))
unfolding scull_seq_show
scull_seq_show-ok iscntrl idx dev fits =
    let (l, e) = show_sets-some iscntrl dev dev.qset fits in (l, rw e refl)

-- A device of small quanta is read past the end of one: where the last set holds a quantum, and the
-- quanta have fewer bytes than the device and than 500, showing the device goes wrong.
pub scull_seq_show_overreads :
    (iscntrl : ℕ → Bool) (idx : ℕ) (dev : ScullDev) (c : List Qset) (a : List (Option Quantum))
    (q : Quantum) (j : ℕ)
    → dev.qset ≡ c ++ (record { quanta = some a } ∷ [])
    → j < dev.qset_len
    → get_or a j none ≡ some q
    → dev.quantum_len < min dev.len 500
    → scull_seq_show iscntrl false idx dev ≡ none
unfolding scull_seq_show
scull_seq_show_overreads iscntrl idx dev c a q j last lt at over =
    let bad : show_sets iscntrl dev dev.qset ≡ none =
      ap (show_sets iscntrl dev) last ∙ show_sets-none iscntrl dev a q c j lt at over in
    rw bad refl
