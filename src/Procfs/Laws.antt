-- ===== src/Procfs/Laws.antt =====
-- What loading and unloading jit/jit.c, jiq/jiq.c and scull/proc.c do to /proc, alone and together.
use Prim.Native.String.{String}
use text.Mathlib.Text.{◌==◌}
use ldd3_workshop.Prelude.{
  ◌≡◌, refl, sym, ap, ◌∙◌, Bool, true, false, Option, none, some, List, [], ◌∷◌, if◌then◌else◌,
  Bool-cases, Option-cases, inl, inr,
}
use ldd3_workshop.Procfs.Tree.{
  Show, timer, run_timer, Procfs, or_else, find, is_among, create_all, remove_all, or_else-none,
  lookup-create_all, lookup-remove_all,
}
use ldd3_workshop.Procfs.Entries.{
  jit_created, jit_removed, jiq_created, jiq_removed, scullseq_proc_open, jit_init, jit_cleanup,
  jiq_init, jiq_cleanup, scull_create_proc, scull_remove_proc,
}

-- None of the names is there.
abbrev pub AllAbsent : (fs : Procfs) → fs.Tree → List (String × Show) → Type 0
AllAbsent fs t es = (x : String) (s : Show) → find es x ≡ some s → fs.lookup t x ≡ none

abbrev pub is_some : Option Show → Bool
is_some none = false
is_some (some s) = true

abbrev pub names : List (String × Show) → List String
names [] = []
names ((n, s) ∷ es) = n ∷ names es

is_among-names :
    (es : List (String × Show)) (x : String) → is_among (names es) x ≡ is_some (find es x)
is_among-names [] x = refl
is_among-names ((n, s) ∷ es) x = elim (Bool-cases (n == x)) [
  | inl same ↦ rw same refl
  | inr other ↦ rw other (is_among-names es x)
]

module _ (fs : Procfs) where
  open fs use {Tree, lookup}

  create_all-AllAbsent :
      (t : Tree) (es : List (String × Show))
      → AllAbsent fs t es
      → (x : String) → lookup (create_all fs t es) x ≡ or_else (find es x) (lookup t x)
  create_all-AllAbsent t es absent x = elim (Option-cases (find es x)) [
    | inl unnamed ↦
        lookup-create_all fs t es x
        ∙ ap (or_else (lookup t x)) unnamed
        ∙ sym (or_else-none (lookup t x))
        ∙ ap (λ o. or_else o (lookup t x)) (sym unnamed)
    | inr (s, named) ↦
        lookup-create_all fs t es x
        ∙ ap (λ o. or_else o (find es x)) (absent x s named)
        ∙ named
        ∙ ap (λ o. or_else o (lookup t x)) (sym named)
  ]

  remove_all-create_all :
      (t : Tree) (es : List (String × Show))
      → AllAbsent fs t es
      → (x : String) → lookup (remove_all fs (create_all fs t es) (names es)) x ≡ lookup t x
  remove_all-create_all t es absent x =
      let at = lookup-remove_all fs (create_all fs t es) (names es) x in
      elim (Option-cases (find es x)) [
        | inl unnamed ↦
            at
            ∙ ap (λ b. if b then none else lookup (create_all fs t es) x)
                (is_among-names es x ∙ ap is_some unnamed)
            ∙ create_all-AllAbsent t es absent x
            ∙ ap (λ o. or_else o (lookup t x)) unnamed
        | inr (s, named) ↦
            at
            ∙ ap (λ b. if b then none else lookup (create_all fs t es) x)
                (is_among-names es x ∙ ap is_some named)
            ∙ sym (absent x s named)
      ]

-- The three modules that have files below /proc.
pub data Driver : Type 0 where
  jit jiq scull : Driver

abbrev pub created : Driver → List (String × Show)
created jit = jit_created
created jiq = jiq_created
created scull = ("scullmem", scullseq_proc_open 0) ∷ []

module _ (fs : Procfs) where
  unfoldable pub load : Driver → fs.Tree → fs.Tree
  load jit t = jit_init fs t
  load jiq t = jiq_init fs t
  load scull t = scull_create_proc fs t

  unfoldable pub unload : Driver → fs.Tree → fs.Tree
  unload jit t = jit_cleanup fs t
  unload jiq t = jiq_cleanup fs t
  unload scull t = scull_remove_proc fs t

-- Where none of the names of a module is taken, loading it makes each of them the file of its own
-- function and data and changes no other name, and unloading it then leaves every name as it was.
pub unload-load :
    (fs : Procfs) (d : Driver) (t : fs.Tree)
    → AllAbsent fs t (created d)
    → ((x : String) → fs.lookup (load fs d t) x ≡ or_else (find (created d) x) (fs.lookup t x))
      × ((x : String) → fs.lookup (unload fs d (load fs d t)) x ≡ fs.lookup t x)
unfolding load unload jit_init jit_cleanup jiq_init jiq_cleanup scull_create_proc scull_remove_proc
    create_all remove_all
unload-load fs jit t absent =
    (create_all-AllAbsent fs t jit_created absent, remove_all-create_all fs t jit_created absent)
unload-load fs jiq t absent =
    (create_all-AllAbsent fs t jiq_created absent, remove_all-create_all fs t jiq_created absent)
unload-load fs scull t absent = (
  create_all-AllAbsent fs t (created scull) absent,
  remove_all-create_all fs t (created scull) absent,
)

-- The modules jit and jiq both create a file "jitimer". Where both are loaded, in either order, the
-- name is the file of the one that came first, and unloading either of them removes it.
pub jitimer_clash :
    (fs : Procfs) (t : fs.Tree)
    → fs.lookup t "jitimer" ≡ none
    → let jit_first = load fs jiq (load fs jit t) in
      let jiq_first = load fs jit (load fs jiq t) in
      (fs.lookup jit_first "jitimer" ≡ some timer)
      × (fs.lookup jiq_first "jitimer" ≡ some run_timer)
      × (fs.lookup (unload fs jiq jit_first) "jitimer" ≡ none)
      × (fs.lookup (unload fs jit jiq_first) "jitimer" ≡ none)
unfolding load unload jit_init jit_cleanup jiq_init jiq_cleanup
jitimer_clash fs t free =
    let jit_there : fs.lookup (create_all fs t jit_created) "jitimer" ≡ some timer =
      lookup-create_all fs t jit_created "jitimer" ∙ ap (λ o. or_else o (some timer)) free in
    let jiq_there : fs.lookup (create_all fs t jiq_created) "jitimer" ≡ some run_timer =
      lookup-create_all fs t jiq_created "jitimer" ∙ ap (λ o. or_else o (some run_timer)) free in
    (
      lookup-create_all fs (create_all fs t jit_created) jiq_created "jitimer"
          ∙ ap (λ o. or_else o (some run_timer)) jit_there,
      lookup-create_all fs (create_all fs t jiq_created) jit_created "jitimer"
          ∙ ap (λ o. or_else o (some timer)) jiq_there,
      lookup-remove_all fs _ jiq_removed "jitimer",
      lookup-remove_all fs _ jit_removed "jitimer",
    )
