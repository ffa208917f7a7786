-- ===== src/Jiq/Print.antt =====
-- `jiq_print` of jiq/jiq.c, and the three functions that run it from a queue.
use ldd3_workshop.Prelude.{
  ℕ, suc, ◌+◌, ◌-◌, Bool, true, false, List, [], ◌∷◌, ◌++◌, ltb, ◌==◌, if◌then◌else◌, sub64,
}

-- The kernel's file that is printed to: its size, and the number of characters in it after one more
-- piece of text, from the number before and the length of the text.
pub record SeqFile : Type 0 where
  pub size : ℕ
  pub put : ℕ → ℕ → ℕ

-- The first two numbers of a line.
pub record Line : Type 0 where
  pub time : ℕ
  pub delta : ℕ

-- `struct clientdata`: `count` is `m->count`, and `lines` what was printed to `m`; `wakes` is the
-- number of wake-ups of `jiq_wait`.
pub record ClientData : Type 0 where
  pub count : ℕ
  pub lines : List Line
  pub len : ℕ
  pub end_ : Bool
  pub jiffies : ℕ
  pub delay : ℕ
  pub wakes : ℕ

-- LIMIT.
abbrev pub limit : ℕ → ℕ
limit page_size = page_size - 128

-- The length of the text of line 88.
abbrev pub heading : ℕ
heading = 42

-- The sum of lines 87 to 99, for a line of `n` characters at the time `j`.
abbrev pub print_line : SeqFile → ℕ → ℕ → ClientData → ClientData
print_line m j n d =
    let headed = if d.len == 0 then m.put d.count heading else d.count in
    let count' = m.put headed n in
    record d {
      count = count';
      lines = d.lines ++ (record { time = j; delta = sub64 j d.jiffies } ∷ []);
      len = d.len + ((if d.len == 0 then headed else 0) + count');
      jiffies = j;
    }

-- The result is whether to run again.
unfoldable pub jiq_print : SeqFile → ℕ → ℕ → ℕ → ClientData → Bool × ClientData
jiq_print m page_size j n d =
    if ltb (limit page_size) d.len
    then (false, record d { end_ = true; wakes = suc d.wakes })
    else (true, print_line m j n d)

-- Where the data stands in line to be run again.
pub data Queued : Type 0 where
  nowhere work tasklet : Queued
  delayed_work : ℕ → Queued

abbrev pub again : Queued → Bool × ClientData → Queued × ClientData
again q (more, d) = (if more then q else nowhere, d)

unfoldable pub jiq_print_wq : SeqFile → ℕ → ℕ → ℕ → ClientData → Queued × ClientData
jiq_print_wq m page_size j n d = again work (jiq_print m page_size j n d)

unfoldable pub jiq_print_wq_delayed : SeqFile → ℕ → ℕ → ℕ → ClientData → Queued × ClientData
jiq_print_wq_delayed m page_size j n d =
    let (more, d') = jiq_print m page_size j n d in again (delayed_work d'.delay) (more, d')

unfoldable pub jiq_print_tasklet : SeqFile → ℕ → ℕ → ℕ → ClientData → Queued × ClientData
jiq_print_tasklet m page_size j n d = again tasklet (jiq_print m page_size j n d)

-- `jiq_timedout`.
unfoldable pub jiq_timedout : SeqFile → ℕ → ℕ → ℕ → ClientData → ClientData
jiq_timedout m page_size j n d =
    let d' = (jiq_print m page_size j n d).1 in record d' { end_ = true; wakes = suc d'.wakes }
