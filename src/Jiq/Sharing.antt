-- ===== src/Jiq/Sharing.antt =====
-- The module jiq/jiq.c from its loading on: `jiq_data` is one for all of its files, and the queues run on
-- whether a reader waits or not.
use ldd3_workshop.Prelude.{
  ℕ, ◌≡◌, Bool, true, false, not, ◌&&◌, ◌||◌, Option, none, some, List, [], ◌∷◌, ltb, ◌==◌,
  if◌then◌else◌,
}
use ldd3_workshop.Jiq.Print.{
  SeqFile, ClientData, limit, jiq_print_wq, jiq_print_wq_delayed, jiq_print_tasklet, jiq_timedout,
}
use ldd3_workshop.Jiq.Files.{
  is_queued, jiq_read_wq_show, jiq_read_wq_delayed_show, jiq_read_tasklet_show,
  jiq_read_run_timer_show,
}

-- The four files, and the queue or the timer of each.
pub data JiqFile : Type 0 where
  wq wq_delayed by_tasklet run_timer : JiqFile

-- Which of them are queued, or pending.
pub record Queues : Type 0 where
  pub jiq_work : Bool
  pub jiq_delayed_work : Bool
  pub jiq_tasklet : Bool
  pub jiq_timer : Bool

abbrev pub queued : JiqFile → Queues → Bool
queued wq q = q.jiq_work
queued wq_delayed q = q.jiq_delayed_work
queued by_tasklet q = q.jiq_tasklet
queued run_timer q = q.jiq_timer

abbrev pub queue : JiqFile → Bool → Queues → Queues
queue wq b q = record q { jiq_work = b }
queue wq_delayed b q = record q { jiq_delayed_work = b }
queue by_tasklet b q = record q { jiq_tasklet = b }
queue run_timer b q = record q { jiq_timer = b }

-- A reader that sleeps: the file it shows, its `seq_file`, and the wake-ups of `jiq_wait` before.
pub record Reader : Type 0 where
  pub file : JiqFile
  pub seq_file : ℕ
  pub since : ℕ

-- `jiq_data` with its queues, the `seq_file` that `m` points to, the reader that sleeps, and whether a
-- run has printed to a `seq_file` whose reader had gone.
pub record JiqData : Type 0 where
  pub data_ : ClientData
  pub m : Option ℕ
  pub queues : Queues
  pub reader : Option Reader
  pub astray : Bool

abbrev pub nothing_queued : Queues
nothing_queued = record {
  jiq_work = false;
  jiq_delayed_work = false;
  jiq_tasklet = false;
  jiq_timer = false;
}

-- Lines 275 to 277 of `jiq_init`: static data is zero, and nothing is queued.
unfoldable pub init_data : JiqData
init_data = record {
  data_ = record {
    count = 0;
    lines = [];
    len = 0;
    end_ = false;
    jiffies = 0;
    delay = 0;
    wakes = 0;
  };
  m = none;
  queues = nothing_queued;
  reader = none;
  astray = false;
}

module _ (m : SeqFile) (page_size delay : ℕ) where
  -- What a reader does up to its sleep: the data it leaves. `n` is the length of the line that the file
  -- of the timer prints at once.
  unfoldable pub shown : JiqFile → ℕ → ℕ → ClientData → ClientData
  shown wq j n d = (jiq_read_wq_show m page_size j [] d).1
  shown wq_delayed j n d = (jiq_read_wq_delayed_show m page_size delay j [] d).1
  shown by_tasklet j n d = (jiq_read_tasklet_show m page_size j [] d).1
  shown run_timer j n d = jiq_read_run_timer_show m page_size j n none d

  -- A run of a queue: whether it queues itself again, and the data.
  unfoldable pub run : JiqFile → ℕ → ℕ → ClientData → Bool × ClientData
  run wq j n d = let (q, d') = jiq_print_wq m page_size j n d in (is_queued q, d')
  run wq_delayed j n d = let (q, d') = jiq_print_wq_delayed m page_size j n d in (is_queued q, d')
  run by_tasklet j n d = let (q, d') = jiq_print_tasklet m page_size j n d in (is_queued q, d')
  run run_timer j n d = (false, jiq_timedout m page_size j n d)

-- Whether the sleep of a reader is over: without a condition after a wake-up, or as `end` says.
unfoldable pub is_over : JiqFile → ℕ → ClientData → Bool
is_over wq since d = ltb since d.wakes
is_over wq_delayed since d = ltb since d.wakes
is_over by_tasklet since d = d.end_
is_over run_timer since d = d.end_

-- `del_timer_sync`, in the file of the timer only.
abbrev pub after_sleep : JiqFile → Queues → Queues
after_sleep wq q = q
after_sleep wq_delayed q = q
after_sleep by_tasklet q = q
after_sleep run_timer q = queue run_timer false q

-- A reader of a file begins, with its `seq_file`; a queue runs; the reader goes on; a signal ends its
-- sleep.
pub data JiqEvent : Type 0 where
  reads : JiqFile → ℕ → ℕ → ℕ → JiqEvent
  runs : JiqFile → ℕ → ℕ → JiqEvent
  goes_on signal : JiqEvent

abbrev pub is_file : ℕ → Option ℕ → Bool
is_file f none = false
is_file f (some g) = f == g

-- Whether the reader that sleeps is the one whose `seq_file` is printed to.
abbrev pub is_waited : JiqData → Bool
is_waited s = elim s.reader [ none ↦ false | some r ↦ is_file r.seq_file s.m ]

abbrev pub left : Reader → JiqData → JiqData
left r s = record s { queues = after_sleep r.file s.queues; reader = none }

module _ (m : SeqFile) (page_size delay : ℕ) where
  -- Readers come one at a time.
  unfoldable pub event : JiqEvent → JiqData → JiqData
  event (reads k f j n) s = elim s.reader [
    | none ↦ record s {
      data_ = shown m page_size delay k j n s.data_;
      m = some f;
      queues = queue k true s.queues;
      reader = some (record { file = k; seq_file = f; since = s.data_.wakes });
    }
    | some r ↦ s
  ]
  event (runs k j n) s =
      if queued k s.queues
      then record s {
        data_ = (run m page_size delay k j n s.data_).1;
        queues = queue k (run m page_size delay k j n s.data_).0 s.queues;
        astray = s.astray || (not (ltb (limit page_size) s.data_.len) && not (is_waited s));
      }
      else s
  event goes_on s = elim s.reader [
    | none ↦ s
    | some r ↦ if is_over r.file r.since s.data_ then left r s else s
  ]
  event signal s = elim s.reader [ none ↦ s | some r ↦ left r s ]

  unfoldable pub events : List JiqEvent → JiqData → JiqData
  events [] s = s
  events (e ∷ es) s = events es (event e s)

  -- A signal comes at most to a reader of the file of the timer.
  abbrev pub AllCalm : List JiqEvent → JiqData → Type 0
  AllCalm [] s = Unit
  AllCalm (reads k f j n ∷ es) s = AllCalm es (event (reads k f j n) s)
  AllCalm (runs k j n ∷ es) s = AllCalm es (event (runs k j n) s)
  AllCalm (goes_on ∷ es) s = AllCalm es (event goes_on s)
  AllCalm (signal ∷ es) s =
      ((r : Reader) → s.reader ≡ some r → r.file ≡ run_timer) × AllCalm es (event signal s)
