-- ===== src/Jit/Tasklet.antt =====
-- `jit_tasklet_fn` and `jit_tasklet_show` of jit/jit.c: the same with a tasklet.
use ldd3_workshop.Prelude.{
  ℕ, suc, Bool, true, false, not, Option, none, some, List, [], ◌∷◌, ◌++◌, ◌==◌, if◌then◌else◌,
  sub64,
}
use ldd3_workshop.Kernel.{Ret, ok, err, enomem, erestartsys}
use ldd3_workshop.Jit.Timer.{Line, jit_async_loops}

-- The queues of tasklets.
pub data Queue : Type 0 where
  tasklet tasklet_hi : Queue

-- `struct jit_data` of a tasklet; `scheduled` is the queue it waits in.
pub record TaskletData : Type 0 where
  pub hi : Bool
  pub scheduled : Option Queue
  pub prev_jiffies : ℕ
  pub loops : ℕ
  pub lines : List Line
  pub wakes : ℕ

-- `tasklet_hi_schedule` or `tasklet_schedule`.
abbrev pub queue_of : Bool → Queue
queue_of hi = if hi then tasklet_hi else tasklet

unfoldable pub jit_tasklet_fn : ℕ → TaskletData → TaskletData
jit_tasklet_fn j d =
    let d' = record d {
      lines = d.lines ++ (record { time = j; delta = sub64 j d.prev_jiffies } ∷ []);
      loops = sub64 d.loops 1;
      scheduled = none;
    } in
    if not (d'.loops == 0)
    then record d' { prev_jiffies = j; scheduled = some (queue_of d.hi) }
    else record d' { wakes = suc d.wakes }

unfoldable pub tasklet_runs : List ℕ → TaskletData → TaskletData
tasklet_runs [] d = d
tasklet_runs (j ∷ js) d =
    let rest = tasklet_runs js (jit_tasklet_fn j d) in if d.loops == 0 then d else rest

-- Lines 235 to 251.
abbrev pub tasklet_start : Bool → ℕ → TaskletData
tasklet_start hi j = record {
  lines = record { time = j; delta = 0 } ∷ [];
  prev_jiffies = j;
  loops = jit_async_loops;
  hi = hi;
  scheduled = some (queue_of hi);
  wakes = 0;
}

pub data TaskletEnded : Type 0 where
  returned : Ret → Bool → Option TaskletData → TaskletEnded
  waiting : TaskletData → TaskletEnded

unfoldable pub jit_tasklet_show : Bool → Bool → ℕ → List ℕ → Bool → TaskletEnded
jit_tasklet_show allocated hi j runs signal =
    let d = tasklet_runs runs (tasklet_start hi j) in
    if not allocated
    then returned (err enomem) true none
    else if signal
    then returned (err erestartsys) false (some d)
    else if d.loops == 0
    then returned (ok 0) true (some d)
    else waiting d
