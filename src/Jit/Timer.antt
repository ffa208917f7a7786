-- ===== src/Jit/Timer.antt =====
-- `jit_timer_fn` and `jit_timer_show` of jit/jit.c: a timer that runs five times and prints a line
-- each time.
use ldd3_workshop.Prelude.{
  ℕ, suc, Bool, true, false, not, Option, none, some, List, [], ◌∷◌, ◌++◌, ◌==◌, if◌then◌else◌,
  add64, sub64,
}
use ldd3_workshop.Kernel.{Ret, ok, err, enomem, erestartsys}

-- JIT_ASYNC_LOOPS.
abbrev pub jit_async_loops : ℕ
jit_async_loops = 5

-- The first two numbers of a line: `jiffies`, and how far it is from the line before.
pub record Line : Type 0 where
  pub time : ℕ
  pub delta : ℕ

-- `struct jit_data` of a timer: `pending` is the expiry of the timer where it is pending, `expires`
-- its field, `lines` what was printed, and `wakes` the number of wake-ups of `wait`.
pub record JitData : Type 0 where
  pub expires : ℕ
  pub pending : Option ℕ
  pub prev_jiffies : ℕ
  pub loops : ℕ
  pub lines : List Line
  pub wakes : ℕ

-- The timer has expired, so it is no longer pending when the handler runs at `j`.
unfoldable pub jit_timer_fn : ℕ → ℕ → JitData → JitData
jit_timer_fn tdelay j d =
    let d' = record d {
      lines = d.lines ++ (record { time = j; delta = sub64 j d.prev_jiffies } ∷ []);
      loops = sub64 d.loops 1;
      pending = none;
    } in
    let expires' = add64 d.expires tdelay in
    if not (d'.loops == 0)
    then record d' { expires = expires'; prev_jiffies = j; pending = some expires' }
    else record d' { wakes = suc d.wakes }

-- The runs of the timer, at the times of the list, until no more are due.
unfoldable pub timer_runs : ℕ → List ℕ → JitData → JitData
timer_runs tdelay [] d = d
timer_runs tdelay (j ∷ js) d =
    let rest = timer_runs tdelay js (jit_timer_fn tdelay j d) in if d.loops == 0 then d else rest

-- How a call stands: it returned, having freed its structure or not, or it still waits.
pub data Ended : Type 0 where
  returned : Ret → Bool → Option JitData → Ended
  waiting : JitData → Ended

-- Lines 168 to 182.
abbrev pub timer_start : ℕ → ℕ → JitData
timer_start tdelay j = record {
  lines = record { time = j; delta = 0 } ∷ [];
  prev_jiffies = j;
  loops = jit_async_loops;
  expires = add64 j tdelay;
  pending = some (add64 j tdelay);
  wakes = 0;
}

-- `allocated` is whether `kmalloc` succeeds, the list says when the timer runs while the call
-- waits, and `signal` whether a signal is pending then.
unfoldable pub jit_timer_show : Bool → ℕ → ℕ → List ℕ → Bool → Ended
jit_timer_show allocated tdelay j runs signal =
    let d = timer_runs tdelay runs (timer_start tdelay j) in
    if not allocated
    then returned (err enomem) true none
    else if signal
    then returned (err erestartsys) false (some d)
    else if d.loops == 0
    then returned (ok 0) true (some d)
    else waiting d
