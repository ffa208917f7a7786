-- ===== src/Examples/Proc.antt =====
-- The files below /proc as a list of names (jit/jit.c and jiq/jiq.c), and a run of one of them.
use Prim.Native.String.{String}
use text.Mathlib.Text.{◌==◌}
use text.Mathlib.TextEquality.{eq_iff}
use ldd3_workshop.Prelude.{
  ◌≡◌, refl, ap, ◌∙◌, true, false, none, some, List, [], ◌∷◌, if◌then◌else◌, Bool-cases,
  Option-cases, inl, inr,
}
use ldd3_workshop.Procfs.Tree.{Show, Procfs, or_else, find}
use ldd3_workshop.Procfs.Entries.{jit_created}
use ldd3_workshop.Procfs.Laws.{jit, load, unload, unload-load}

abbrev Entries : Type 0
Entries = List (String × Show)

abbrev create : Entries → String → Show → Entries
create t n s = elim (find t n) [ none ↦ (n, s) ∷ t | some s' ↦ t ]

abbrev remove : Entries → String → Entries
remove [] n = []
remove ((m, s) ∷ t) n = let rest = remove t n in if m == n then rest else (m, s) ∷ rest

same_name : (n : String) → (n == n) ≡ true
same_name n = (eq_iff n n).1 refl

find-remove : (t : Entries) (n : String) → find (remove t n) n ≡ none
find-remove [] n = refl
find-remove ((m, s) ∷ t) n = elim (Bool-cases (m == n)) [
  | inl same ↦ rw same (find-remove t n)
  | inr other ↦ rw (other, other) (find-remove t n)
]

find-remove_other : (t : Entries) (n x : String) → (n == x) ≡ false → find (remove t n) x ≡ find t x
find-remove_other [] n x e = refl
find-remove_other ((m, s) ∷ t) n x e = elim (Bool-cases (m == n)) [
  | inl same ↦
      (let other : (m == x) ≡ false = ap (λ y. y == x) ((eq_iff m n).0 same) ∙ e in
        rw (same, other) (find-remove_other t n x e))
  | inr other ↦ rw other (ap (λ o. if m == x then some s else o) (find-remove_other t n x e))
]

abbrev list_procfs : Procfs
list_procfs = record {
  Tree = Entries;
  lookup = find;
  proc_create = create;
  remove_proc_entry = remove;
  create_new = λ t n s e. rw (create, e, same_name n) refl;
  create_taken = λ t n s s' e. rw (create, e) refl;
  create_other = λ t n x s e. elim (Option-cases (find t n)) [
    | inl new ↦ rw (create, new, e) refl
    | inr (s', taken) ↦ rw (create, taken) refl
  ];
  remove_self = find-remove;
  remove_other = find-remove_other;
}

unload-load_example :
    ((x : String) → find (load list_procfs jit []) x ≡ or_else (find jit_created x) none)
    × ((x : String) → find (unload list_procfs jit (load list_procfs jit [])) x ≡ none)
unload-load_example = unload-load list_procfs jit [] (λ x s e. refl)
