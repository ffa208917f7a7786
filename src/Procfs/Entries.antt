-- ===== src/Procfs/Entries.antt =====
-- The files that the modules create below /proc: their names, and the function that opens each. Loading
-- and unloading jit/jit.c and jiq/jiq.c, and `scull_create_proc` and `scull_remove_proc` of scull/proc.c.
use Prim.Native.String.{String}
use ldd3_workshop.Prelude.{ℕ, zero, suc, not, ◌==◌, Option, none, some, List, [], ◌∷◌}
use ldd3_workshop.Jit.Delay.{JitFile, jit_busy, jit_sched, jit_queue, jit_schedto}
use ldd3_workshop.Procfs.Tree.{
  Show, delay, current_time, timer, tasklet, wq, wq_delayed, run_timer, read_tasklet, scull_seq,
  Procfs, create_all, remove_all,
}

-- `enum jit_files` as the data of a file.
abbrev pub jit_file : ℕ → Option JitFile
jit_file zero = some jit_busy
jit_file (suc zero) = some jit_sched
jit_file (suc (suc zero)) = some jit_queue
jit_file (suc (suc (suc zero))) = some jit_schedto
jit_file (suc (suc (suc (suc n)))) = none

-- The functions that open the files, from the data of the file, which is 0 for NULL.
abbrev pub jit_fn_open : ℕ → Show
jit_fn_open data_ptr = delay (jit_file data_ptr)

abbrev pub jit_currenttime_open : ℕ → Show
jit_currenttime_open data_ptr = current_time

abbrev pub jit_timer_open : ℕ → Show
jit_timer_open data_ptr = timer

abbrev pub jit_tasklet_open : ℕ → Show
jit_tasklet_open hi = tasklet (not (hi == 0))

abbrev pub jiq_read_wq_open : ℕ → Show
jiq_read_wq_open data_ptr = wq

abbrev pub jiq_read_wq_delayed_open : ℕ → Show
jiq_read_wq_delayed_open data_ptr = wq_delayed

abbrev pub jiq_read_tasklet_open : ℕ → Show
jiq_read_tasklet_open data_ptr = read_tasklet

abbrev pub jiq_read_run_timer_open : ℕ → Show
jiq_read_run_timer_open data_ptr = run_timer

abbrev pub scullseq_proc_open : ℕ → Show
scullseq_proc_open data_ptr = scull_seq

-- What `jit_init` creates, and the names that `jit_cleanup` removes.
abbrev pub jit_created : List (String × Show)
jit_created =
    ("currentime", jit_currenttime_open 0)
    ∷ ("jitbusy", jit_fn_open 0)
    ∷ ("jitsched", jit_fn_open 1)
    ∷ ("jitqueue", jit_fn_open 2)
    ∷ ("jitschedto", jit_fn_open 3)
    ∷ ("jitimer", jit_timer_open 0)
    ∷ ("jitasklet", jit_tasklet_open 0)
    ∷ ("jitasklethi", jit_tasklet_open 1)
    ∷ []

abbrev pub jit_removed : List String
jit_removed =
    "currentime" ∷ "jitbusy" ∷ "jitsched" ∷ "jitqueue" ∷ "jitschedto" ∷ "jitimer" ∷ "jitasklet"
    ∷ "jitasklethi" ∷ []

abbrev pub jiq_created : List (String × Show)
jiq_created =
    ("jiqwq", jiq_read_wq_open 0)
    ∷ ("jiqwqdelay", jiq_read_wq_delayed_open 0)
    ∷ ("jitimer", jiq_read_run_timer_open 0)
    ∷ ("jiqtasklet", jiq_read_tasklet_open 0)
    ∷ []

abbrev pub jiq_removed : List String
jiq_removed = "jiqwq" ∷ "jiqwqdelay" ∷ "jitimer" ∷ "jiqtasklet" ∷ []

module _ (fs : Procfs) where
  unfoldable pub jit_init : fs.Tree → fs.Tree
  jit_init t = create_all fs t jit_created

  unfoldable pub jit_cleanup : fs.Tree → fs.Tree
  jit_cleanup t = remove_all fs t jit_removed

  unfoldable pub jiq_init : fs.Tree → fs.Tree
  jiq_init t = create_all fs t jiq_created

  unfoldable pub jiq_cleanup : fs.Tree → fs.Tree
  jiq_cleanup t = remove_all fs t jiq_removed

  unfoldable pub scull_create_proc : fs.Tree → fs.Tree
  scull_create_proc t = fs.proc_create t "scullmem" (scullseq_proc_open 0)

  unfoldable pub scull_remove_proc : fs.Tree → fs.Tree
  scull_remove_proc t = fs.remove_proc_entry t "scullmem"
