-- ===== src/Jit/Laws.antt =====
-- What the files of jit/jit.c print, that they end, and what an interrupted one leaves.
use ldd3_workshop.Prelude.{
  ℕ, zero, suc, ◌+◌, ◌-◌, ◌*◌, ◌%◌, ◌^◌, ◌≤◌, ◌<◌, ◌≡◌, ◌⊎◌, inl, inr, refl, sym, ap, ◌∙◌, Bool,
  true, false, none, some, List, [], ◌∷◌, ◌++◌, arith, ltb, add64, sub64, map, length, Bool-cases,
}
use native.Mathlib.Nat.{suc-mul}
use mathlib.Core.List.{append_assoc}
use ldd3_workshop.Kernel.{ok, err, erestartsys}
use ldd3_workshop.Jit.Delay.{JitFile, jit_busy, jit_sched, spin, jit_fn_show}
use ldd3_workshop.Jit.Timer.{
  Line, JitData, jit_timer_fn, timer_runs, timer_start, returned, jit_timer_show,
}

-- What the kernel says of `time_before`: it is right on any two times less than 2 ^ 63 ticks apart,
-- also where `jiffies` has wrapped in between.
pub record IsTimeBefore (time_before : ℕ → ℕ → Bool) : Type 0 where
  pub earlier : (t d : ℕ) → 0 < d → d < 2 ^ 63 → time_before (t % 2 ^ 64) ((t + d) % 2 ^ 64) ≡ true
  pub not_earlier : (t d : ℕ) → d < 2 ^ 63 → time_before ((t + d) % 2 ^ 64) (t % 2 ^ 64) ≡ false

-- `jiffies` `e` ticks after the time `t`.
abbrev pub after : ℕ → ℕ → ℕ
after t e = (t + e) % 2 ^ 64

-- None of the times is later than `last`.
abbrev pub UpTo : ℕ → List ℕ → Type 0
UpTo last [] = Unit
UpTo last (e ∷ es) = (e ≤ last) × UpTo last es

-- All of the times are before `delay`.
abbrev pub AllBefore : ℕ → List ℕ → Type 0
AllBefore delay [] = Unit
AllBefore delay (e ∷ es) = (e < delay) × AllBefore delay es

-- Whether a test finds the delay over.
before_delay :
    (time_before : ℕ → ℕ → Bool) (t delay e : ℕ)
    → IsTimeBefore time_before
    → delay < 2 ^ 32
    → e < 2 ^ 62
    → time_before (after t e) (add64 (t % 2 ^ 64) delay) ≡ ltb e delay
before_delay time_before t delay e kernel small near = elim (Bool-cases (ltb e delay)) [
  | inl soon ↦
      (let there : (t + e + (delay - e)) % 2 ^ 64 ≡ add64 (t % 2 ^ 64) delay = ground arith in
        ap (λ x. time_before (after t e) x) (sym there)
        ∙ kernel.earlier (t + e) (delay - e) (ground arith) (omega arith)
        ∙ sym soon)
  | inr over ↦
      (let here : after t e ≡ (t + delay + (e - delay)) % 2 ^ 64 = ground arith in
        let there : add64 (t % 2 ^ 64) delay ≡ (t + delay) % 2 ^ 64 = omega arith in
        ap (λ x. time_before x (add64 (t % 2 ^ 64) delay)) here
        ∙ ap (λ x. time_before ((t + delay + (e - delay)) % 2 ^ 64) x) there
        ∙ kernel.not_earlier (t + delay) (e - delay) (omega arith)
        ∙ sym over)
]

spin_lem :
    (time_before : ℕ → ℕ → Bool) (t delay last : ℕ) (es : List ℕ)
    → IsTimeBefore time_before
    → delay < 2 ^ 32
    → last < 2 ^ 62
    → UpTo last es
    → let over = spin time_before (add64 (t % 2 ^ 64) delay) (map (after t) es) in
      ((over ≡ false) × AllBefore delay es) ⊎ ((over ≡ true) × (delay ≤ last))
unfolding spin
spin_lem time_before t delay last [] kernel small near up = inl (refl, tt)
spin_lem time_before t delay last (e ∷ es) kernel small near up =
    let ih = spin_lem time_before t delay last es kernel small near up.1 in
    let test = before_delay time_before t delay e kernel small (omega arith) in
    rw test (ground arith)

diff_lem :
    (t delay last : ℕ)
    → last < 2 ^ 62
    → delay ≤ last
    → sub64 (after t last) (add64 (t % 2 ^ 64) delay) ≡ last - delay
diff_lem t delay last near over = omega arith

-- The two files that spin, with a `delay` below 2 ^ 32 and for up to 2 ^ 62 ticks: either every test
-- so far came before `delay` ticks had passed, and the file still spins, or `delay` ticks have
-- passed, and the last number of its line is how many ticks more than `delay` it took, also where
-- `jiffies` has wrapped meanwhile.
pub jit_spin_delays :
    (time_before : ℕ → ℕ → Bool) (file : JitFile) (t delay last : ℕ) (es : List ℕ)
    → IsTimeBefore time_before
    → (file ≡ jit_busy) ⊎ (file ≡ jit_sched)
    → delay < 2 ^ 32
    → last < 2 ^ 62
    → UpTo last es
    → let r = jit_fn_show time_before file delay (after t 0) (map (after t) es) (after t last) in
      ((r ≡ none) × AllBefore delay es)
      ⊎ ((delay ≤ last)
          × (r ≡ some (record { from = after t 0; to = after t last; diff = last - delay })))
unfolding jit_fn_show
jit_spin_delays time_before file t delay last es kernel which small near up =
    let start : after t 0 ≡ t % 2 ^ 64 = omega arith in
    let over = spin_lem time_before t delay last es kernel small near up in
    rw start (ground (arith, diff_lem t delay last near))

-- The lines for runs at the times of the list, the line before being at `prev`.
abbrev pub differences : ℕ → List ℕ → List Line
differences prev [] = []
differences prev (j ∷ js) = record { time = j; delta = sub64 j prev } ∷ differences j js

-- One run of the timer.
abbrev ran : ℕ → JitData → JitData
ran j d = record d { lines = d.lines ++ (record { time = j; delta = sub64 j d.prev_jiffies } ∷ []) }

fn_last :
    (tdelay j : ℕ) (d : JitData)
    → d.loops ≡ 1
    → jit_timer_fn tdelay j d ≡ record (ran j d) { loops = 0; pending = none; wakes = suc d.wakes }
unfolding jit_timer_fn
fn_last tdelay j d e = ground arith

fn_more :
    (tdelay j n : ℕ) (d : JitData)
    → d.loops ≡ suc (suc n)
    → n < 2 ^ 32
    → jit_timer_fn tdelay j d ≡ record (ran j d) {
      loops = suc n;
      expires = add64 d.expires tdelay;
      prev_jiffies = j;
      pending = some (add64 d.expires tdelay);
    }
unfolding jit_timer_fn
fn_more tdelay j n d e small = ground arith

runs_step :
    (tdelay j n : ℕ) (js : List ℕ) (d : JitData)
    → d.loops ≡ suc n
    → timer_runs tdelay (j ∷ js) d ≡ timer_runs tdelay js (jit_timer_fn tdelay j d)
unfolding timer_runs
runs_step tdelay j n js d e = ground arith

runs_stop : (tdelay : ℕ) (js : List ℕ) (d : JitData) → d.loops ≡ 0 → timer_runs tdelay js d ≡ d
unfolding timer_runs
runs_stop tdelay [] d e = refl
runs_stop tdelay (j ∷ js) d e = ground arith

-- What a timer that has run as often as it was to run leaves.
record Ran (tdelay n prev : ℕ) (js : List ℕ) (d d' : JitData) : Type 0 where
  done : d'.loops ≡ 0
  printed_all : d'.lines ≡ d.lines ++ differences prev js
  idle : d'.pending ≡ none
  woken : d'.wakes ≡ suc d.wakes
  expiry : d'.expires ≡ (d.expires + n * tdelay) % 2 ^ 64

expiry_step :
    (x tdelay n : ℕ) → (add64 x tdelay + n * tdelay) % 2 ^ 64 ≡ (x + suc n * tdelay) % 2 ^ 64
expiry_step x tdelay n = rw suc-mul (omega arith)

timer_runs-Ran :
    (tdelay j : ℕ) (js rest : List ℕ) (d : JitData)
    → d.loops ≡ suc (length js)
    → length js < 2 ^ 32
    → d.expires < 2 ^ 64
    → Ran tdelay (length js) d.prev_jiffies (j ∷ js) d (timer_runs tdelay (j ∷ (js ++ rest)) d)
timer_runs-Ran tdelay j [] rest d e small range =
    let d' = record (ran j d) { loops = 0; pending = none; wakes = suc d.wakes } in
    let same : timer_runs tdelay (j ∷ rest) d ≡ d' =
      runs_step tdelay j 0 rest d e
      ∙ ap (timer_runs tdelay rest) (fn_last tdelay j d e)
      ∙ runs_stop tdelay rest d' refl in
    rw same
      (record { done = refl; printed_all = refl; idle = refl; woken = refl; expiry = omega arith })
timer_runs-Ran tdelay j (j' ∷ js) rest d e small range =
    let d' = record (ran j d) {
      loops = suc (length js);
      expires = add64 d.expires tdelay;
      prev_jiffies = j;
      pending = some (add64 d.expires tdelay);
    } in
    let same : timer_runs tdelay (j ∷ j' ∷ (js ++ rest)) d
        ≡ timer_runs tdelay (j' ∷ (js ++ rest)) d' =
      runs_step tdelay j (suc (length js)) (j' ∷ (js ++ rest)) d e
      ∙ ap (timer_runs tdelay (j' ∷ (js ++ rest)))
          (fn_more tdelay j (length js) d e (omega arith)) in
    let ih = timer_runs-Ran tdelay j' js rest d' refl (omega arith) (omega arith) in
    rw same (record {
      done = ih.done;
      printed_all = ih.printed_all ∙ append_assoc d.lines _ _;
      idle = ih.idle;
      woken = ih.woken;
      expiry = ih.expiry ∙ expiry_step d.expires tdelay (length js);
    })

-- With memory and no signal, once the timer has run five times while the call waits: the call
-- returns 0 and frees its structure; it has printed its own line, and one for each of the first five
-- runs, with the time since the line before; the timer is no longer pending, its last expiry was
-- four times `tdelay` after the first, and the call was woken once.
pub jit_timer_prints :
    (tdelay j : ℕ) (js rest : List ℕ)
    → length js ≡ 5
    → j < 2 ^ 64
    → let d = timer_runs tdelay (js ++ rest) (timer_start tdelay j) in
      (jit_timer_show true tdelay j (js ++ rest) false ≡ returned (ok 0) true (some d))
      × (d.lines ≡ record { time = j; delta = 0 } ∷ differences j js)
      × (d.pending ≡ none)
      × (d.expires ≡ (j + 5 * tdelay) % 2 ^ 64)
      × (d.wakes ≡ 1)
unfolding jit_timer_show
jit_timer_prints tdelay j [] rest five range = ground arith
jit_timer_prints tdelay j (j' ∷ js) rest five range =
    let ran =
      timer_runs-Ran tdelay j' js rest (timer_start tdelay j) (sym five) (omega arith)
        (omega arith) in
    let four : length js ≡ 4 = omega arith in
    let expiry = ran.expiry ∙ ap (λ n. (add64 j tdelay + n * tdelay) % 2 ^ 64) four ∙ omega arith in
    (ground (arith, ran.done), ran.printed_all, ran.idle, expiry, ran.woken)

timer_runs_pending :
    (tdelay n : ℕ) (js : List ℕ) (d : JitData)
    → d.loops ≡ suc n
    → length js ≤ n
    → n < 2 ^ 32
    → d.pending ≡ some d.expires
    → let d' = timer_runs tdelay js d in d'.pending ≡ some d'.expires
unfolding timer_runs
timer_runs_pending tdelay n [] d e few small p = p
timer_runs_pending tdelay zero (j ∷ js) d e few small p = ground arith
timer_runs_pending tdelay (suc n) (j ∷ js) d e few small p =
    let more = fn_more tdelay j n d e (omega arith) in
    let same = runs_step tdelay j (suc n) js d e in
    let ih =
      timer_runs_pending tdelay n js (jit_timer_fn tdelay j d) (ground arith) (omega arith)
        (omega arith) (ground arith) in
    rw same ih

-- A signal that comes before the fifth run ends the call with ERESTARTSYS, but the structure is not
-- freed, and its timer is still pending.
pub jit_timer_interrupted :
    (tdelay j : ℕ) (js : List ℕ)
    → length js < 5
    → let d = timer_runs tdelay js (timer_start tdelay j) in
      (jit_timer_show true tdelay j js true ≡ returned (err erestartsys) false (some d))
      × (d.pending ≡ some d.expires)
unfolding jit_timer_show
jit_timer_interrupted tdelay j js few = (
  refl,
  timer_runs_pending tdelay 4 js (timer_start tdelay j) refl (omega arith) (omega arith) refl,
)
