-- ===== src/Jiq/Timer.antt =====
-- The file of jiq/jiq.c that prints by a timer.
use ldd3_workshop.Prelude.{
  ℕ, suc, ◌+◌, ◌^◌, ◌≤◌, ◌<◌, ◌≡◌, refl, ap, ◌∙◌, Bool, true, false, none, some, [], ◌∷◌, ltb,
  arith, sub64,
}
use ldd3_workshop.Jiq.Print.{
  SeqFile, Line, ClientData, limit, heading, print_line, jiq_print, jiq_timedout,
}
use ldd3_workshop.Jiq.Files.{reset, jiq_read_run_timer_show}
use ldd3_workshop.Jiq.Laws.{IsSeqFile}

prints_below :
    (m : SeqFile) (page_size j n : ℕ) (d : ClientData)
    → ltb (limit page_size) d.len ≡ false
    → jiq_print m page_size j n d ≡ (true, print_line m j n d)
unfolding jiq_print
prints_below m page_size j n d below = ground arith

abbrev one_line : SeqFile → ℕ → ℕ → ClientData → ClientData
one_line m jiffies n d = print_line m jiffies n (record (reset jiffies d) { end_ = false })

signalled_is :
    (m : SeqFile) (page_size jiffies n : ℕ) (d : ClientData)
    → jiq_read_run_timer_show m page_size jiffies n none d ≡ one_line m jiffies n d
unfolding jiq_read_run_timer_show
signalled_is m page_size jiffies n d =
    ap (λ (r : Bool × ClientData). r.1)
      (prints_below m page_size jiffies n (record (reset jiffies d) { end_ = false })
        (ground arith))

timed_is :
    (m : SeqFile) (page_size jiffies n j n' : ℕ) (d : ClientData)
    → ltb (limit page_size) (one_line m jiffies n d).len ≡ false
    → let d₂ = print_line m j n' (one_line m jiffies n d) in
      jiq_read_run_timer_show m page_size jiffies n (some (j, n')) d
      ≡ record d₂ { end_ = true; wakes = suc d₂.wakes }
unfolding jiq_read_run_timer_show jiq_timedout
timed_is m page_size jiffies n j n' d below =
    rw
      (
        prints_below m page_size jiffies n (record (reset jiffies d) { end_ = false })
            (ground arith),
        prints_below m page_size j n' (one_line m jiffies n d) below,
      )
      refl

-- The file that prints by a timer, on a page of at least 512 bytes with lines of up to 85 characters:
-- it prints a line at once, with a difference of 0, and where no signal comes before the timer one
-- more line, with the time since the first; then the reader is told to go on and woken once. A signal
-- leaves the first line alone.
pub run_timer_prints :
    (m : SeqFile) (page_size jiffies n j n' : ℕ) (d : ClientData)
    → IsSeqFile m
    → m.size ≡ page_size
    → 512 ≤ page_size
    → n + heading < 128
    → jiffies < 2 ^ 64
    → let timed = jiq_read_run_timer_show m page_size jiffies n (some (j, n')) d in
      let signalled = jiq_read_run_timer_show m page_size jiffies n none d in
      (timed.lines
        ≡ record { time = jiffies; delta = 0 } ∷ record { time = j; delta = sub64 j jiffies } ∷ [])
      × (timed.end_ ≡ true)
      × (timed.wakes ≡ suc d.wakes)
      × (signalled.lines ≡ record { time = jiffies; delta = 0 } ∷ [])
      × (signalled.end_ ≡ false)
      × (signalled.wakes ≡ d.wakes)
run_timer_prints m page_size jiffies n j n' d seq is_page page small range =
    let head = seq.fits 0 heading (omega arith) in
    let text = seq.fits heading n (omega arith) in
    let both : m.put (m.put 0 heading) n ≡ heading + n = ap (λ (c : ℕ). m.put c n) head ∙ text in
    let below : ltb (limit page_size) (one_line m jiffies n d).len ≡ false =
      ground (arith, head, both) in
    let zero_delta : sub64 jiffies jiffies ≡ 0 = omega arith in
    let line : ℕ → Line = λ x. record { time = jiffies; delta = x } in
    rw (timed_is m page_size jiffies n j n' d below, signalled_is m page_size jiffies n d)
      (
        ap (λ (x : ℕ). line x ∷ record { time = j; delta = sub64 j jiffies } ∷ []) zero_delta,
        refl,
        refl,
        ap (λ (x : ℕ). line x ∷ []) zero_delta,
        refl,
        refl,
      )
