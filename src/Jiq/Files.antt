-- ===== src/Jiq/Files.antt =====
-- What the four files of jiq/jiq.c do when they are read.
use ldd3_workshop.Prelude.{ℕ, Bool, true, false, Option, none, some, List, [], ◌∷◌, if◌then◌else◌}
use ldd3_workshop.Jiq.Print.{
  SeqFile, ClientData, jiq_print, Queued, nowhere, work, tasklet, delayed_work, jiq_print_wq,
  jiq_print_wq_delayed, jiq_print_tasklet, jiq_timedout,
}

abbrev pub is_queued : Queued → Bool
is_queued nowhere = false
is_queued work = true
is_queued tasklet = true
is_queued (delayed_work _) = true

-- The runs from a queue: each at a time and with the length of its line, while the data is queued.
unfoldable pub queue_runs :
    (ℕ → ℕ → ClientData → Queued × ClientData)
    → List (ℕ × ℕ)
    → Queued × ClientData
    → Queued × ClientData
queue_runs print [] r = r
queue_runs print ((j, n) ∷ runs) r =
    let rest = queue_runs print runs (print j n r.1) in if is_queued r.0 then rest else r

-- The file `m` is empty before it is shown. `d` is what the last reader left.
abbrev pub reset : ℕ → ClientData → ClientData
reset jiffies d = record d { count = 0; lines = []; len = 0; jiffies = jiffies }

-- Lines 134 to 141, with the runs while the reader sleeps.
unfoldable pub jiq_read_wq_show : SeqFile → ℕ → ℕ → List (ℕ × ℕ) → ClientData → Queued × ClientData
jiq_read_wq_show m page_size jiffies runs d =
    queue_runs (jiq_print_wq m page_size) runs (work, record (reset jiffies d) { delay = 0 })

-- Lines 163 to 170. `delay` is the module parameter.
unfoldable pub jiq_read_wq_delayed_show :
    SeqFile → ℕ → ℕ → ℕ → List (ℕ × ℕ) → ClientData → Queued × ClientData
jiq_read_wq_delayed_show m page_size delay jiffies runs d =
    queue_runs (jiq_print_wq_delayed m page_size) runs
      (delayed_work delay, record (reset jiffies d) { delay = delay })

-- Lines 201 to 208.
unfoldable pub jiq_read_tasklet_show :
    SeqFile → ℕ → ℕ → List (ℕ × ℕ) → ClientData → Queued × ClientData
jiq_read_tasklet_show m page_size jiffies runs d =
    queue_runs (jiq_print_tasklet m page_size) runs
      (tasklet, record (reset jiffies d) { end_ = false })

-- Lines 240 to 251: a line at once, and one more when the timer runs, unless a signal comes before.
unfoldable pub jiq_read_run_timer_show :
    SeqFile → ℕ → ℕ → ℕ → Option (ℕ × ℕ) → ClientData → ClientData
jiq_read_run_timer_show m page_size jiffies n timer d =
    let d' = (jiq_print m page_size jiffies n (record (reset jiffies d) { end_ = false })).1 in
    elim timer [ none ↦ d' | some (j, n') ↦ jiq_timedout m page_size j n' d' ]
