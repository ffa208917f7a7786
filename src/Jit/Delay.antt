-- ===== src/Jit/Delay.antt =====
-- `jit_fn_show` of jit/jit.c: the four files that wait for `delay` ticks before they print.
use ldd3_workshop.Prelude.{
  ℕ, Bool, true, false, Option, none, some, List, [], ◌∷◌, if◌then◌else◌, add64, sub64,
}

-- `enum jit_files`.
pub data JitFile : Type 0 where
  jit_busy jit_sched jit_queue jit_schedto : JitFile

-- The three numbers of the line that is printed.
pub record Delayed : Type 0 where
  pub from : ℕ
  pub to : ℕ
  pub diff : ℕ

-- The loop of lines 49 and 53. The list holds what `jiffies` is at each test; the result is whether
-- the loop ends at one of them.
unfoldable pub spin : (ℕ → ℕ → Bool) → ℕ → List ℕ → Bool
spin time_before j1 [] = false
spin time_before j1 (j ∷ js) =
    let rest = spin time_before j1 js in if time_before j j1 then rest else true

-- Lines 68 to 71, with `jiffies` at that time.
abbrev pub printed : ℕ → ℕ → ℕ → Delayed
printed delay j0 j1 = record { from = j0; to = j1; diff = sub64 j1 (add64 j0 delay) }

-- `time_before` is the kernel's, `j0` is `jiffies` at the start and `last` at the end. `none` is a
-- loop that still runs. The files that sleep do so in the kernel.
unfoldable pub jit_fn_show : (ℕ → ℕ → Bool) → JitFile → ℕ → ℕ → List ℕ → ℕ → Option Delayed
jit_fn_show time_before jit_busy delay j0 readings last =
    if spin time_before (add64 j0 delay) readings then some (printed delay j0 last) else none
jit_fn_show time_before jit_sched delay j0 readings last =
    if spin time_before (add64 j0 delay) readings then some (printed delay j0 last) else none
jit_fn_show time_before jit_queue delay j0 readings last = some (printed delay j0 last)
jit_fn_show time_before jit_schedto delay j0 readings last = some (printed delay j0 last)
