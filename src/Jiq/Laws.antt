-- ===== src/Jiq/Laws.antt =====
-- How much the files of jiq/jiq.c print, and that they end.
use ldd3_workshop.Prelude.{
  ℕ, suc, ◌+◌, ◌-◌, ◌*◌, ◌≤◌, ◌<◌, ◌≡◌, ◌⊎◌, inl, inr, refl, ap, ◌∙◌, true, false, List, [], ◌∷◌,
  arith, ltb, ◌==◌, length, length-append, sub64, Bool-cases,
}
use native.Mathlib.Nat.{suc-mul, mul-add}
use ldd3_workshop.Jiq.Print.{
  SeqFile, ClientData, limit, heading, print_line, jiq_print, Queued, jiq_print_wq,
  jiq_print_wq_delayed, jiq_print_tasklet,
}
use ldd3_workshop.Jiq.Files.{
  is_queued, queue_runs, jiq_read_wq_show, jiq_read_wq_delayed_show, jiq_read_tasklet_show,
}

-- What the kernel says of such a file: text that fits is added whole, and text that does not fill it.
pub record IsSeqFile (m : SeqFile) : Type 0 where
  pub fits : (c n : ℕ) → c + n < m.size → m.put c n ≡ c + n
  pub full : (c n : ℕ) → m.size ≤ c + n → m.put c n ≡ m.size

-- Each line has between `lo` and `hi` characters.
abbrev pub LinesBetween : ℕ → ℕ → List (ℕ × ℕ) → Type 0
LinesBetween lo hi [] = Unit
LinesBetween lo hi ((j, n) ∷ runs) = (lo ≤ n) × (n ≤ hi) × LinesBetween lo hi runs

-- After `k` lines: how many characters stand in the file, how far `len` has grown, and that `len` was
-- within the limit before the last line.
pub record Counted (page_size lo k : ℕ) (d : ClientData) : Type 0 where
  pub many : length d.lines ≡ k
  pub all_in : d.count ≤ d.len
  pub room : d.count < page_size
  pub at_least : k * lo ≤ d.count
  pub grown : k * (k * lo) ≤ 2 * d.len
  pub bound : (k - 1) * ((k - 1) * lo) ≤ 2 * limit page_size

-- Where the runs of the list end, the data having been printed `k` times before: it is queued no more
-- and the reader may go on, or each run has printed a line.
abbrev pub Ends : ℕ → ℕ → ℕ → List (ℕ × ℕ) → Queued × ClientData → Type 0
Ends page_size lo k runs r =
    (k' : ℕ) × Counted page_size lo k' r.1
    × (((is_queued r.0 ≡ false) × (r.1.end_ ≡ true)) ⊎ (k' ≡ k + length runs))

square : (k lo : ℕ) → suc k * (suc k * lo) ≡ k * (k * lo) + 2 * (k * lo) + lo
square k lo = rw (suc-mul, suc-mul, mul-add) (omega arith)

module _ (m : SeqFile) (page_size lo : ℕ) (seq : IsSeqFile m) (is_page : m.size ≡ page_size)
    (page : 128 ≤ page_size) where
  -- What a line adds.
  print_line-count :
      (j n : ℕ) (d : ClientData)
      → n + heading < 128
      → d.len ≤ limit page_size
      → d.count ≤ d.len
      → let d' = print_line m j n d in
        (d.count + n ≤ d'.count) × (d'.count ≤ d.count + heading + n) × (d.len + d'.count ≤ d'.len)
  print_line-count j n d small below within = elim (Bool-cases (d.len == 0)) [
    | inl first ↦
        (let head = seq.fits d.count heading (ground arith) in
          let text = seq.fits (d.count + heading) n (ground arith) in ground arith)
    | inr later ↦ (let text = seq.fits d.count n (ground arith) in ground arith)
  ]

  print_line-Counted :
      (j n k : ℕ) (d : ClientData)
      → lo ≤ n
      → n + heading < 128
      → d.len ≤ limit page_size
      → Counted page_size lo k d
      → Counted page_size lo (suc k) (print_line m j n d)
  print_line-Counted j n k d at_lo small below c =
      let (more, most, grown) = print_line-count j n d small below c.all_in in
      record {
        many =
            length-append d.lines (record { time = j; delta = sub64 j d.jiffies } ∷ [])
            ∙ omega (arith, c.many);
        all_in = omega arith;
        room = omega arith;
        at_least = rw suc-mul (omega (arith, c.at_least));
        grown = rw square (omega (arith, c.grown, c.at_least));
        bound = let back : suc k - 1 ≡ k = omega arith in rw back (omega (arith, c.grown));
      }

  -- A queue function that prints as `jiq_print` does, and queues the data again exactly if asked to.
  abbrev pub Prints : (ℕ → ℕ → ClientData → Queued × ClientData) → Type 0
  Prints print =
      (j n : ℕ) (d : ClientData)
      → let r = jiq_print m page_size j n d in
        ((print j n d).1 ≡ r.1) × (is_queued (print j n d).0 ≡ r.0)

  ended_stays :
      (print : ℕ → ℕ → ClientData → Queued × ClientData) (runs : List (ℕ × ℕ))
      (r : Queued × ClientData)
      → is_queued r.0 ≡ false
      → queue_runs print runs r ≡ r
  unfolding queue_runs
  ended_stays print [] r e = refl
  ended_stays print ((j, n) ∷ runs) r e = rw e refl

  queue_runs-Ends :
      (hi : ℕ) (print : ℕ → ℕ → ClientData → Queued × ClientData) (runs : List (ℕ × ℕ)) (k : ℕ)
      (r : Queued × ClientData)
      → Prints print
      → hi + heading < 128
      → LinesBetween lo hi runs
      → Counted page_size lo k r.1
      → is_queued r.0 ≡ true
      → Ends page_size lo k runs (queue_runs print runs r)
  unfolding queue_runs jiq_print
  queue_runs-Ends hi print [] k r prints small between c go = (k, c, inr (omega arith))
  queue_runs-Ends hi print ((j, n) ∷ runs) k r prints small (at_lo, at_hi, between) c go =
      let (same, queued) = prints j n r.1 in
      elim (Bool-cases (ltb (limit page_size) r.1.len)) [
        | inl over ↦
            (let stopped : is_queued (print j n r.1).0 ≡ false = ground arith in
              let left : (print j n r.1).1 ≡ record r.1 { end_ = true; wakes = suc r.1.wakes } =
                ground arith in
              rw (go, ended_stays print runs (print j n r.1) stopped)
                (
                  k,
                  rw left (record {
                    many = c.many;
                    all_in = c.all_in;
                    room = c.room;
                    at_least = c.at_least;
                    grown = c.grown;
                    bound = c.bound;
                  }),
                  inl (stopped, rw left refl),
                ))
        | inr under ↦
            (let line : (print j n r.1).1 ≡ print_line m j n r.1 = ground arith in
              let c' = print_line-Counted j n k r.1 at_lo (omega arith) (ground arith) c in
              let (k', c'', end) =
                queue_runs-Ends hi print runs (suc k) (print j n r.1) prints small between
                  (rw line c') (ground arith) in
              rw go (k', c'', ground arith))
      ]

-- Where nothing is printed yet.
started :
    (page_size lo : ℕ) (d : ClientData)
    → 128 ≤ page_size
    → d.count ≡ 0
    → d.len ≡ 0
    → d.lines ≡ []
    → Counted page_size lo 0 d
started page_size lo d page c l e = record {
  many = ap length e;
  all_in = omega arith;
  room = omega arith;
  at_least = omega arith;
  grown = omega arith;
  bound = omega arith;
}

-- The files for the work queue, the delayed work queue and the tasklet, where each line has between
-- `lo` and `hi` characters, `hi` below 86, on a page of at least 128 bytes. Whatever the times of the
-- runs: the page never fills, so nothing printed is lost; the data is still queued after the last run
-- of the list, having printed one line for each run, or it is queued no more, and the reader is told
-- so; and for `k` lines printed, `(k - 1) * (k - 1) * lo` is at most twice LIMIT, so the file ends
-- after a number of lines that is near the square root of what LIMIT allows.
pub jiq_files_end :
    (m : SeqFile) (page_size lo hi delay jiffies : ℕ) (runs : List (ℕ × ℕ)) (d : ClientData)
    → IsSeqFile m
    → m.size ≡ page_size
    → 128 ≤ page_size
    → hi + heading < 128
    → LinesBetween lo hi runs
    → Ends page_size lo 0 runs (jiq_read_wq_show m page_size jiffies runs d)
      × Ends page_size lo 0 runs (jiq_read_wq_delayed_show m page_size delay jiffies runs d)
      × Ends page_size lo 0 runs (jiq_read_tasklet_show m page_size jiffies runs d)
unfolding jiq_read_wq_show jiq_read_wq_delayed_show jiq_read_tasklet_show jiq_print_wq
    jiq_print_wq_delayed jiq_print_tasklet
jiq_files_end m page_size lo hi delay jiffies runs d seq is_page page small between = (
  from_queue (jiq_print_wq m page_size) _ (λ j n d'. ground arith)
      (started page_size lo _ page refl refl refl) refl,
  from_queue (jiq_print_wq_delayed m page_size) _ (λ j n d'. ground arith)
      (started page_size lo _ page refl refl refl) refl,
  from_queue (jiq_print_tasklet m page_size) _ (λ j n d'. ground arith)
      (started page_size lo _ page refl refl refl) refl,
)
  where
    from_queue :
        (print : ℕ → ℕ → ClientData → Queued × ClientData) (r : Queued × ClientData)
        → Prints m page_size lo seq is_page page print
        → Counted page_size lo 0 r.1
        → is_queued r.0 ≡ true
        → Ends page_size lo 0 runs (queue_runs print runs r)
    from_queue print r prints c go =
        queue_runs-Ends m page_size lo seq is_page page hi print runs 0 r prints small between c go
