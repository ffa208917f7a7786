-- ===== src/Examples/Sharing.antt =====
-- Readers of the files of jiq/jiq.c, one after the other.
use ldd3_workshop.Prelude.{◌≡◌, true, arith, Option, sym, ap, refl, none, some, List, [], ◌∷◌}
use ldd3_workshop.Jiq.Print.{jiq_print, jiq_print_wq}
use ldd3_workshop.Jiq.Files.{queue_runs, jiq_read_wq_show}
use ldd3_workshop.Jiq.Sharing.{
  JiqFile, JiqData, wq, by_tasklet, run_timer, Reader, init_data, JiqEvent, reads, runs, goes_on,
  signal, event, events, shown, run, is_over,
}
use ldd3_workshop.Jiq.Lone.{IsOrderly, events-IsOrderly, signal_prints_astray}
use ldd3_workshop.Examples.Delays.{page_file}

-- The limit is reached after three lines; then a signal ends the file of the timer.
abbrev some_events : List JiqEvent
some_events =
    reads wq 1 1000 0
    ∷ runs wq 1001 45
    ∷ goes_on
    ∷ runs wq 1002 45
    ∷ runs wq 1003 45
    ∷ runs wq 1004 45
    ∷ goes_on
    ∷ reads run_timer 2 2000 45
    ∷ signal
    ∷ reads by_tasklet 3 3000 0
    ∷ runs by_tasklet 3001 45
    ∷ []

abbrev file_of : Option Reader → JiqFile
file_of none = run_timer
file_of (some r) = r.file

events-IsOrderly_example : IsOrderly (events page_file 512 1 some_events init_data)
unfolding event init_data shown run is_over jiq_print jiq_print_wq jiq_read_wq_show queue_runs
events-IsOrderly_example =
    events-IsOrderly page_file 512 1 some_events init_data (λ r e. ap file_of (sym e), tt)
      (refl, refl)

-- A reader of the work queue that has just begun.
abbrev begun : JiqData
unfolding event init_data shown run is_over jiq_read_wq_show queue_runs
begun = event page_file 512 1 (reads wq 1 1000 0) init_data

signal_prints_astray_example :
    (events page_file 512 1 (signal ∷ runs wq 1001 45 ∷ []) begun).astray ≡ true
unfolding is_over begun
signal_prints_astray_example =
    signal_prints_astray page_file 512 1 1001 45 (record { file = wq; seq_file = 1; since = 0 })
      begun.data_ begun.m begun.queues begun.astray (λ e. ground (arith, e)) refl (omega arith)
      (refl, (refl, omega arith, refl))
