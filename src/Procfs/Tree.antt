-- ===== src/Procfs/Tree.antt =====
-- What the modules use of the kernel's /proc, as an interface, and lists of its calls.
use Prim.Native.String.{String}
use text.Mathlib.Text.{◌==◌}
use text.Mathlib.TextEquality.{eq_iff}
use ldd3_workshop.Prelude.{
  ◌≡◌, refl, sym, ap, ◌∙◌, Bool, true, false, ◌||◌, Option, none, some, List, [], ◌∷◌,
  if◌then◌else◌, Bool-cases, Option-cases, inl, inr,
}
use ldd3_workshop.Jit.Delay.{JitFile}

-- The function that prints what is read from a file, with the data it is given.
pub data Show : Type 0 where
  delay : Option JitFile → Show
  current_time timer : Show
  tasklet : Bool → Show
  wq wq_delayed run_timer read_tasklet : Show
  scull_seq : Show

-- The directory /proc: a name that is taken is not created again.
pub record Procfs : Type 1 where
  pub Tree : Type 0
  pub lookup : Tree → String → Option Show
  pub proc_create : Tree → String → Show → Tree
  pub remove_proc_entry : Tree → String → Tree
  pub create_new :
      (t : Tree) (n : String) (s : Show) → lookup t n ≡ none → lookup (proc_create t n s) n ≡ some s
  pub create_taken :
      (t : Tree) (n : String) (s s' : Show) → lookup t n ≡ some s' → proc_create t n s ≡ t
  pub create_other :
      (t : Tree) (n x : String) (s : Show)
      → (n == x) ≡ false
      → lookup (proc_create t n s) x ≡ lookup t x
  pub remove_self : (t : Tree) (n : String) → lookup (remove_proc_entry t n) n ≡ none
  pub remove_other :
      (t : Tree) (n x : String) → (n == x) ≡ false → lookup (remove_proc_entry t n) x ≡ lookup t x

-- The first of two answers that is there.
abbrev pub or_else : Option Show → Option Show → Option Show
or_else none b = b
or_else (some a) b = some a

abbrev pub find : List (String × Show) → String → Option Show
find [] x = none
find ((n, s) ∷ es) x = if n == x then some s else find es x

abbrev pub is_among : List String → String → Bool
is_among [] x = false
is_among (n ∷ ns) x = (n == x) || is_among ns x

pub or_else-none : (o : Option Show) → o ≡ or_else o none
or_else-none none = refl
or_else-none (some a) = refl

or_else_assoc : (a b c : Option Show) → or_else (or_else a b) c ≡ or_else a (or_else b c)
or_else_assoc none b c = refl
or_else_assoc (some a) b c = refl

or_else_if :
    (b : Bool) (s : Show) (o : Option Show)
    → or_else (if b then some s else none) o ≡ (if b then some s else o)
or_else_if true s o = refl
or_else_if false s o = refl

none_if : (b : Bool) → ◌≡◌ {A = Option Show} (if b then none else none) none
none_if true = refl
none_if false = refl

module _ (fs : Procfs) where
  open fs use {Tree, lookup, proc_create, remove_proc_entry}

  unfoldable pub create_all : Tree → List (String × Show) → Tree
  create_all t [] = t
  create_all t ((n, s) ∷ es) = create_all (proc_create t n s) es

  unfoldable pub remove_all : Tree → List String → Tree
  remove_all t [] = t
  remove_all t (n ∷ ns) = remove_all (remove_proc_entry t n) ns

  lookup-create :
      (t : Tree) (n x : String) (s : Show)
      → lookup (proc_create t n s) x ≡ or_else (lookup t x) (if n == x then some s else none)
  lookup-create t n x s = elim (Bool-cases (n == x)) [
    | inr other ↦ rw (fs.create_other t n x s other, other) (or_else-none (lookup t x))
    | inl same ↦
        (let n_is : n ≡ x = (eq_iff n x).0 same in
          elim (Option-cases (lookup t x)) [
            | inl new ↦
                rw (new, same)
                  (ap (λ y. lookup (proc_create t y s) x) n_is ∙ fs.create_new t x s new)
            | inr (s', taken) ↦
                rw (fs.create_taken t n s s' (ap (lookup t) n_is ∙ taken), taken) refl
          ])
  ]

  -- A name keeps the file it had, or gets the first that is created under it.
  pub lookup-create_all :
      (t : Tree) (es : List (String × Show)) (x : String)
      → lookup (create_all t es) x ≡ or_else (lookup t x) (find es x)
  unfolding create_all
  lookup-create_all t [] x = or_else-none (lookup t x)
  lookup-create_all t ((n, s) ∷ es) x =
      lookup-create_all (proc_create t n s) es x
      ∙ ap (λ o. or_else o (find es x)) (lookup-create t n x s)
      ∙ or_else_assoc (lookup t x) (if n == x then some s else none) (find es x)
      ∙ ap (or_else (lookup t x)) (or_else_if (n == x) s (find es x))

  pub lookup-remove_all :
      (t : Tree) (ns : List String) (x : String)
      → lookup (remove_all t ns) x ≡ (if is_among ns x then none else lookup t x)
  unfolding remove_all
  lookup-remove_all t [] x = refl
  lookup-remove_all t (n ∷ ns) x = elim (Bool-cases (n == x)) [
    | inr other ↦ rw other (
        lookup-remove_all (remove_proc_entry t n) ns x
        ∙ ap (λ o. if is_among ns x then none else o) (fs.remove_other t n x other))
    | inl same ↦
        (let gone : lookup (remove_proc_entry t n) x ≡ none =
            ap (lookup (remove_proc_entry t n)) (sym ((eq_iff n x).0 same)) ∙ fs.remove_self t n in
          rw same (
            lookup-remove_all (remove_proc_entry t n) ns x
            ∙ ap (λ o. if is_among ns x then none else o) gone
            ∙ none_if (is_among ns x)))
  ]
