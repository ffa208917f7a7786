-- ===== src/Jiq/Lone.antt =====
-- A reader of a file of jiq/jiq.c that is alone, and not interrupted: its queue is the only one, and goes
-- on exactly until the reader may. And what follows where a signal interrupts it.
use ldd3_workshop.Prelude.{
  ℕ, ◌≤◌, ◌≡◌, inl, inr, refl, ap, sym, ◌∙◌, Bool, true, false, not, ◌&&◌, ◌||◌, Option, none, some,
  List, [], ◌∷◌, arith, ltb, Bool-cases,
}
use mathlib.Core.Path.{subst}
use ldd3_workshop.Jiq.Print.{
  SeqFile, ClientData, limit, jiq_print, jiq_print_wq, jiq_print_wq_delayed, jiq_print_tasklet,
  jiq_timedout,
}
use ldd3_workshop.Jiq.Files.{
  queue_runs, jiq_read_wq_show, jiq_read_wq_delayed_show, jiq_read_tasklet_show,
  jiq_read_run_timer_show,
}
use ldd3_workshop.Jiq.Queues.{
  only, queue-only, only-none, queued-only, after_sleep-only, sleeps_on, only-queued,
}
use ldd3_workshop.Jiq.Sharing.{
  JiqFile, wq, wq_delayed, by_tasklet, run_timer, Queues, queued, queue, nothing_queued, Reader,
  JiqData, shown, run, is_over, after_sleep, JiqEvent, reads, runs, goes_on, signal, is_waited,
  event, events, AllCalm,
}

module _ (m : SeqFile) (page_size delay : ℕ) where
  -- The sleep of a reader is not over where it begins.
  shown-begins :
      (k : JiqFile) (j n : ℕ) (d : ClientData)
      → is_over k d.wakes (shown m page_size delay k j n d) ≡ false
  unfolding is_over shown jiq_read_wq_show jiq_read_wq_delayed_show jiq_read_tasklet_show queue_runs
      jiq_read_run_timer_show jiq_print
  shown-begins wq j n d = ground arith
  shown-begins wq_delayed j n d = ground arith
  shown-begins by_tasklet j n d = ground arith
  shown-begins run_timer j n d = ground arith

  -- A run of the queue of the reader: it queues itself again exactly where the sleep is not over.
  run-goes_on :
      (k : JiqFile) (j n since : ℕ) (d : ClientData)
      → is_over k since d ≡ false
      → since ≤ d.wakes
      → (run m page_size delay k j n d).0 ≡ not (is_over k since (run m page_size delay k j n d).1)
  unfolding is_over run jiq_print_wq jiq_print_wq_delayed jiq_print_tasklet jiq_timedout jiq_print
  run-goes_on wq j n since d e s = ground arith
  run-goes_on wq_delayed j n since d e s = ground arith
  run-goes_on by_tasklet j n since d e s = ground arith
  run-goes_on run_timer j n since d e s = ground arith

  run-wakes :
      (k : JiqFile) (j n : ℕ) (d : ClientData) → d.wakes ≤ (run m page_size delay k j n d).1.wakes
  unfolding run jiq_print_wq jiq_print_wq_delayed jiq_print_tasklet jiq_timedout jiq_print
  run-wakes wq j n d = ground arith
  run-wakes wq_delayed j n d = ground arith
  run-wakes by_tasklet j n d = ground arith
  run-wakes run_timer j n d = ground arith

  shown-wakes :
      (k : JiqFile) (j n : ℕ) (d : ClientData) → (shown m page_size delay k j n d).wakes ≡ d.wakes
  unfolding shown jiq_read_wq_show jiq_read_wq_delayed_show jiq_read_tasklet_show queue_runs
      jiq_read_run_timer_show jiq_print
  shown-wakes wq j n d = ground arith
  shown-wakes wq_delayed j n d = ground arith
  shown-wakes by_tasklet j n d = ground arith
  shown-wakes run_timer j n d = ground arith

-- A reader that sleeps is the one that is printed to, and its queue alone is queued, exactly while its
-- sleep is not over.
abbrev pub IsAttended : ClientData → Option ℕ → Queues → Option Reader → Type 0
IsAttended d f q none = q ≡ nothing_queued
IsAttended d f q (some r) =
    (f ≡ some r.seq_file) × (r.since ≤ d.wakes) × (q ≡ only r.file (not (is_over r.file r.since d)))

abbrev pub jiq_data : ClientData → Option ℕ → Queues → Option Reader → Bool → JiqData
jiq_data d f q r a = record { data_ = d; m = f; queues = q; reader = r; astray = a }

abbrev pub IsOrderly : JiqData → Type 0
IsOrderly s = (s.astray ≡ false) × IsAttended s.data_ s.m s.queues s.reader

module _ (m : SeqFile) (page_size delay : ℕ) where
  -- What a run leaves.
  run-IsOrderly :
      (k : JiqFile) (j n : ℕ) (d : ClientData) (g : Option ℕ) (q : Queues) (r : Option Reader)
      (a : Bool)
      → a ≡ false
      → queued k q ≡ true
      → IsAttended d g q r
      → IsOrderly (
          jiq_data
            (run m page_size delay k j n d).1
            g
            (queue k (run m page_size delay k j n d).0 q)
            r
            (a || (not (ltb (limit page_size) d.len) && not (is_waited (jiq_data d g q r a)))))
  run-IsOrderly k j n d g q none a straight on free =
      let (same, never) =
        queued-only k k false (ap (queued k) (only-none k) ∙ ap (queued k) (sym free) ∙ on) in
      ground (arith, never)
  run-IsOrderly k j n d g q (some r) a straight on (at, since, e) =
      let (same, sleeps) =
        queued-only k r.file (not (is_over r.file r.since d))
          (subst (λ x. queued k x ≡ true) e on) in
      let not_over : is_over k r.since d ≡ false = rw same (ground (arith, sleeps)) in
      let again = run-goes_on m page_size delay k j n r.since d not_over since in
      let more = not (is_over r.file r.since d) in
      let left_on = (run m page_size delay k j n d).0 in
      let wakes = run-wakes m page_size delay k j n d in
      (
        rw at (ground (arith, straight)),
        (
          at,
          omega (arith, since, wakes),
          ap (queue k left_on) e
              ∙ ap (λ f. queue k left_on (only f more)) (sym same)
              ∙ queue-only k left_on more
              ∙ ap (only k) again
              ∙ ap (λ f. only f (not (is_over f r.since (run m page_size delay k j n d).1))) same,
        ),
      )

  reads-IsOrderly :
      (k : JiqFile) (f j n : ℕ) (d : ClientData) (g : Option ℕ) (q : Queues) (r : Option Reader)
      (a : Bool)
      → IsOrderly (jiq_data d g q r a)
      → IsOrderly (event m page_size delay (reads k f j n) (jiq_data d g q r a))
  unfolding event
  reads-IsOrderly k f j n d g q (some r) a o = o
  reads-IsOrderly k f j n d g q none a (straight, free) =
      let begins = shown-begins m page_size delay k j n d in
      (
        straight,
        (
          refl,
          omega (arith, shown-wakes m page_size delay k j n d),
          ap (queue k true) free ∙ ap (λ b. only k (not b)) (sym begins),
        ),
      )

  runs-IsOrderly :
      (k : JiqFile) (j n : ℕ) (d : ClientData) (g : Option ℕ) (q : Queues) (r : Option Reader)
      (a : Bool)
      → IsOrderly (jiq_data d g q r a)
      → IsOrderly (event m page_size delay (runs k j n) (jiq_data d g q r a))
  unfolding event
  runs-IsOrderly k j n d g q r a (straight, o) = elim (Bool-cases (queued k q)) [
    | inl on ↦ rw on (run-IsOrderly k j n d g q r a straight on o)
    | inr off ↦ rw off (straight, o)
  ]

  goes_on-IsOrderly :
      (d : ClientData) (g : Option ℕ) (q : Queues) (r : Option Reader) (a : Bool)
      → IsOrderly (jiq_data d g q r a)
      → IsOrderly (event m page_size delay goes_on (jiq_data d g q r a))
  unfolding event
  goes_on-IsOrderly d g q none a o = o
  goes_on-IsOrderly d g q (some r) a (straight, (at, since, e)) =
      elim (Bool-cases (is_over r.file r.since d)) [
        | inl over ↦
            rw over (straight, ap (after_sleep r.file) e ∙ after_sleep-only _ _ (inl (ap not over)))
        | inr not_over ↦ rw not_over (straight, (at, since, e))
      ]

  signal-IsOrderly :
      (d : ClientData) (g : Option ℕ) (q : Queues) (r : Option Reader) (a : Bool)
      → ((r' : Reader) → r ≡ some r' → r'.file ≡ run_timer)
      → IsOrderly (jiq_data d g q r a)
      → IsOrderly (event m page_size delay signal (jiq_data d g q r a))
  unfolding event
  signal-IsOrderly d g q none a calm o = o
  signal-IsOrderly d g q (some r) a calm (straight, (at, since, e)) =
      (straight, ap (after_sleep r.file) e ∙ after_sleep-only _ _ (inr (calm r refl)))

  -- Whatever reads, runs of the queues and readers that go on come, in any order, one reader at a time,
  -- and signals at most where the reader shows the file of the timer: if it was so at the start, no run
  -- has printed to a file whose reader had gone; where nobody reads nothing is queued; and where a
  -- reader sleeps, it is its file that is printed to, and its queue alone is queued, exactly as long
  -- as its sleep is not over.
  pub events-IsOrderly :
      (es : List JiqEvent) (s : JiqData)
      → AllCalm m page_size delay es s
      → IsOrderly s
      → IsOrderly (events m page_size delay es s)
  unfolding events
  events-IsOrderly [] s calm o = o
  events-IsOrderly (reads k f j n ∷ es) s calm o =
      events-IsOrderly es _ calm (reads-IsOrderly k f j n _ _ _ s.reader _ o)
  events-IsOrderly (runs k j n ∷ es) s calm o =
      events-IsOrderly es _ calm (runs-IsOrderly k j n _ _ _ s.reader _ o)
  events-IsOrderly (goes_on ∷ es) s calm o =
      events-IsOrderly es _ calm (goes_on-IsOrderly _ _ _ s.reader _ o)
  events-IsOrderly (signal ∷ es) s (only_timer, calm) o =
      events-IsOrderly es _ calm (signal-IsOrderly _ _ _ s.reader _ only_timer o)

-- Where a signal ends the sleep of a reader of another file than that of the timer, before its sleep is
-- over and before the limit is reached, its queue runs on and prints to the file that it has left.
pub signal_prints_astray :
    (m : SeqFile) (page_size delay j n : ℕ) (r : Reader) (d : ClientData) (g : Option ℕ)
    (q : Queues) (a : Bool)
    → ¬ (r.file ≡ run_timer)
    → is_over r.file r.since d ≡ false
    → d.len ≤ limit page_size
    → IsOrderly (jiq_data d g q (some r) a)
    → (events m page_size delay (signal ∷ runs r.file j n ∷ []) (jiq_data d g q (some r) a)).astray
      ≡ true
unfolding events event
signal_prints_astray m page_size delay j n r d g q a other on room (straight, (at, since, e)) =
    let runs_on : queued r.file (after_sleep r.file q) ≡ true =
      ap (queued r.file) (sleeps_on r.file q other ∙ e) ∙ only-queued r.file _ ∙ ap not on in
    rw runs_on (ground (arith, room))
