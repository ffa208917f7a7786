-- ===== src/Jit/Alike.antt =====
-- The tasklet files and the timer file of jit/jit.c print the same lines at the same times.
use ldd3_workshop.Prelude.{
  ℕ, ◌≡◌, ◌⊎◌, inl, refl, ap, if◌then◌else◌, Bool, true, false, none, some, List, [], ◌∷◌, arith,
  ◌==◌,
}
use ldd3_workshop.Kernel.{Ret}
use ldd3_workshop.Jit.Timer.{JitData, Ended, jit_timer_fn, timer_runs, timer_start, jit_timer_show}
use ldd3_workshop.Jit.Tasklet.{
  TaskletData, TaskletEnded, queue_of, jit_tasklet_fn, tasklet_runs, tasklet_start,
  jit_tasklet_show,
}

-- The same lines, and either both are due to run again, the tasklet in the queue of the file, or
-- neither is.
pub record Alike (hi : Bool) (d : JitData) (e : TaskletData) : Type 0 where
  pub lines : e.lines ≡ d.lines
  pub loops : e.loops ≡ d.loops
  pub prev : e.prev_jiffies ≡ d.prev_jiffies
  pub wakes : e.wakes ≡ d.wakes
  pub same_hi : e.hi ≡ hi
  pub due :
      ((e.scheduled ≡ some (queue_of hi)) × (d.pending ≡ some d.expires))
      ⊎ ((e.scheduled ≡ none) × (d.pending ≡ none))

fn-Alike :
    (hi : Bool) (tdelay j : ℕ) (d : JitData) (e : TaskletData)
    → Alike hi d e
    → Alike hi (jit_timer_fn tdelay j d) (jit_tasklet_fn j e)
unfolding jit_timer_fn jit_tasklet_fn
fn-Alike hi tdelay j d e a = ground arith

Alike-if :
    (hi : Bool) {d d' : JitData} {e e' : TaskletData} {b c : Bool}
    → c ≡ b
    → Alike hi d e
    → Alike hi d' e'
    → Alike hi (if b then d else d') (if c then e else e')
Alike-if hi {b = true} same a a' = rw same a
Alike-if hi {b = false} same a a' = rw same a'

runs-Alike :
    (hi : Bool) (tdelay : ℕ) (js : List ℕ) (d : JitData) (e : TaskletData)
    → Alike hi d e
    → Alike hi (timer_runs tdelay js d) (tasklet_runs js e)
unfolding timer_runs tasklet_runs
runs-Alike hi tdelay [] d e a = a
runs-Alike hi tdelay (j ∷ js) d e a =
    let ih =
      runs-Alike hi tdelay js (jit_timer_fn tdelay j d) (jit_tasklet_fn j e)
        (fn-Alike hi tdelay j d e a) in
    Alike-if hi (ap (λ n. n == 0) a.loops) a ih

-- Two calls that ended the same way, on data that are alike.
pub data SameEnd (hi : Bool) : Ended → TaskletEnded → Type 0 where
  refused :
      (r : Ret) (f : Bool) → SameEnd hi (Ended.returned r f none) (TaskletEnded.returned r f none)
  returned :
      (r : Ret) (f : Bool) (d : JitData) (e : TaskletData)
      → Alike hi d e
      → SameEnd hi (Ended.returned r f (some d)) (TaskletEnded.returned r f (some e))
  waiting :
      (d : JitData) (e : TaskletData)
      → Alike hi d e
      → SameEnd hi (Ended.waiting d) (TaskletEnded.waiting e)

SameEnd-if :
    (hi : Bool) {x x' : Ended} {y y' : TaskletEnded} {b c : Bool}
    → c ≡ b
    → SameEnd hi x y
    → SameEnd hi x' y'
    → SameEnd hi (if b then x else x') (if c then y else y')
SameEnd-if hi {b = true} same s s' = rw same s
SameEnd-if hi {b = false} same s s' = rw same s'

shown-Alike :
    (hi : Bool) (tdelay j : ℕ) (runs : List ℕ)
    → Alike hi
        (timer_runs tdelay runs (timer_start tdelay j))
        (tasklet_runs runs (tasklet_start hi j))
shown-Alike hi tdelay j runs =
    runs-Alike hi tdelay runs (timer_start tdelay j) (tasklet_start hi j) (record {
      lines = refl;
      loops = refl;
      prev = refl;
      wakes = refl;
      same_hi = refl;
      due = inl (refl, refl);
    })

-- The timer file and the two tasklet files, where both run at the same times: they return the same
-- result, having freed their structure or not, or both still wait; they have printed the same lines,
-- and both are due again or neither is, each tasklet in its own queue. The delay of the timer plays
-- no part in it.
pub tasklet_like_timer :
    (allocated hi : Bool) (tdelay j : ℕ) (runs : List ℕ) (signal : Bool)
    → SameEnd hi
        (jit_timer_show allocated tdelay j runs signal)
        (jit_tasklet_show allocated hi j runs signal)
unfolding jit_timer_show jit_tasklet_show
tasklet_like_timer false hi tdelay j runs signal = refused _ _
tasklet_like_timer true hi tdelay j runs true = returned _ _ _ _ (shown-Alike hi tdelay j runs)
tasklet_like_timer true hi tdelay j runs false =
    SameEnd-if hi (ap (λ n. n == 0) (shown-Alike hi tdelay j runs).loops)
      (returned _ _ _ _ (shown-Alike hi tdelay j runs)) (waiting _ _ (shown-Alike hi tdelay j runs))
