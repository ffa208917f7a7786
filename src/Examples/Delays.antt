-- ===== src/Examples/Delays.antt =====
-- Runs of the files of jit/jit.c and jiq/jiq.c.
use ldd3_workshop.Prelude.{
  ℕ, ◌+◌, ◌*◌, ◌%◌, ◌^◌, ◌≤◌, ◌≡◌, ◌⊎◌, inl, refl, Bool, true, false, none, some, [], ◌∷◌, ◌++◌,
  arith, ltb, leb, if◌then◌else◌, map, sub64,
}
use ldd3_workshop.Kernel.{ok}
use ldd3_workshop.Jit.Delay.{jit_busy, jit_fn_show}
use ldd3_workshop.Jit.Timer.{timer_runs, timer_start, returned, jit_timer_show}
use ldd3_workshop.Jit.Laws.{
  IsTimeBefore, after, AllBefore, differences, jit_spin_delays, jit_timer_prints,
}
use ldd3_workshop.Jiq.Print.{SeqFile, ClientData}
use ldd3_workshop.Jiq.Files.{jiq_read_wq_show, jiq_read_wq_delayed_show, jiq_read_tasklet_show}
use ldd3_workshop.Jiq.Laws.{IsSeqFile, Ends, jiq_files_end}

-- The sign of the difference, as the kernel takes it.
abbrev is_before : ℕ → ℕ → Bool
is_before a b = leb 9223372036854775808 (sub64 a b)

is_before-IsTimeBefore : IsTimeBefore is_before
is_before-IsTimeBefore = record {
  earlier = λ t d some small. ground arith;
  not_earlier = λ t d small. ground arith;
}

-- `jiffies` wraps during the delay.
jit_spin_delays_example :
    let t : ℕ = 18446744073709551610 in
    let r =
      jit_fn_show is_before jit_busy 10
        (after t 0)
        (map (after t) (3 ∷ 9 ∷ 12 ∷ []))
        (after t 12) in
    ((r ≡ none) × AllBefore 10 (3 ∷ 9 ∷ 12 ∷ []))
    ⊎ ((10 ≤ 12) × (r ≡ some (record { from = after t 0; to = after t 12; diff = 2 })))
jit_spin_delays_example =
    jit_spin_delays is_before jit_busy 18446744073709551610 10 12 (3 ∷ 9 ∷ 12 ∷ [])
      is_before-IsTimeBefore (inl refl) (omega arith) (omega arith)
      (omega arith, (omega arith, (omega arith, tt)))

jit_timer_prints_example :
    let d = timer_runs 10 ((1010 ∷ 1020 ∷ 1031 ∷ 1040 ∷ 1050 ∷ []) ++ []) (timer_start 10 1000) in
    (jit_timer_show true 10 1000 ((1010 ∷ 1020 ∷ 1031 ∷ 1040 ∷ 1050 ∷ []) ++ []) false
      ≡ returned (ok 0) true (some d))
    × (d.lines
        ≡ record { time = 1000; delta = 0 }
          ∷ differences 1000 (1010 ∷ 1020 ∷ 1031 ∷ 1040 ∷ 1050 ∷ []))
    × (d.pending ≡ none)
    × (d.expires ≡ (1000 + 5 * 10) % 2 ^ 64)
    × (d.wakes ≡ 1)
jit_timer_prints_example =
    jit_timer_prints 10 1000 (1010 ∷ 1020 ∷ 1031 ∷ 1040 ∷ 1050 ∷ []) [] refl (omega arith)

-- A file of one page.
abbrev pub page_file : SeqFile
page_file = record { size = 4096; put = λ c n. if ltb (c + n) 4096 then c + n else 4096 }

pub page_file-IsSeqFile : IsSeqFile page_file
page_file-IsSeqFile = record { fits = λ c n h. ground arith; full = λ c n h. ground arith }

-- The data before the first reader.
abbrev pub no_reader : ClientData
no_reader = record {
  count = 0;
  lines = [];
  len = 0;
  end_ = false;
  jiffies = 0;
  delay = 0;
  wakes = 0;
}

jiq_files_end_example :
    Ends 4096 40 0
      ((1001, 45) ∷ (1002, 45) ∷ [])
      (jiq_read_wq_show page_file 4096 1000 ((1001, 45) ∷ (1002, 45) ∷ []) no_reader)
    × Ends 4096 40 0
        ((1001, 45) ∷ (1002, 45) ∷ [])
        (jiq_read_wq_delayed_show page_file 4096 1 1000 ((1001, 45) ∷ (1002, 45) ∷ []) no_reader)
    × Ends 4096 40 0
        ((1001, 45) ∷ (1002, 45) ∷ [])
        (jiq_read_tasklet_show page_file 4096 1000 ((1001, 45) ∷ (1002, 45) ∷ []) no_reader)
jiq_files_end_example =
    jiq_files_end page_file 4096 40 50 1 1000 ((1001, 45) ∷ (1002, 45) ∷ []) no_reader
      page_file-IsSeqFile refl (omega arith) (omega arith)
      (omega arith, omega arith, (omega arith, omega arith, tt))
