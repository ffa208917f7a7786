-- ===== src/Pipe/Handlers.antt =====
-- `scull_p_read` and `scull_p_write` of scull/pipe.c, from the first lock to the return.
use ldd3_workshop.Prelude.{
  ℕ, ◌≡◌, ◌≢◌, ◌⊎◌, inl, inr, refl, Bool, true, false, some, List, [], ◌∷◌, arith, ◌&&◌, ◌==◌,
  if◌then◌else◌, Bool-cases, Option-cases,
}
use ldd3_workshop.Kernel.{ok, err, eagain, erestartsys, Kernel, IsLinux}
use ldd3_workshop.Pipe.Device.{
  Buffer, ScullPipe, proper_fifo_beh_idx, File, Session, lock, Wakeup, signal, lock_signal, resumed,
  Waited, ready, leave, sleeping, Outcome, returned, asleep, oops, spacefree,
}
use ldd3_workshop.Pipe.Io.{sleep_while, blocked, is_empty, is_full, take_out, put_in}
use ldd3_workshop.Pipe.Ring.{IsOpen}
use ldd3_workshop.Pipe.Transfer.{Took, take_out-Took, take_out_safe, Put, put_in-Put, put_in_safe}

-- `d` is the device of the call, or one that the process found when it woke up.
abbrev pub Seen : List Wakeup → ScullPipe → ScullPipe → Type 0
Seen [] d₀ d = d ≡ d₀
Seen (signal ∷ ws) d₀ d = d ≡ d₀
Seen (lock_signal ∷ ws) d₀ d = d ≡ d₀
Seen (resumed d₁ ∷ ws) d₀ d = (d ≡ d₀) ⊎ Seen ws d₁ d

-- All devices that the process can find are open ones.
abbrev pub AllOpen : List Wakeup → ScullPipe → Type 0
AllOpen ws d₀ = (d : ScullPipe) → Seen ws d₀ d → IsOpen d

pub open_buffer : (d : ScullPipe) → IsOpen d → (b : Buffer) × (d.buf ≡ some b)
open_buffer d v = elim (Option-cases d.buf) [ inl e ↦ absurd (ground arith) | inr (b, e) ↦ (b, e) ]

-- How a loop of sleeps ends: with its test false of a device that it has seen, or with one of two
-- errors and the lock released, or asleep.
abbrev pub Settled : (ScullPipe → Bool) → File → List Wakeup → Session → Waited → Type 0
Settled stuck file ws s (ready s') =
    (stuck s'.dev ≡ false) × Seen ws s.dev s'.dev × (s' ≡ record s { dev = s'.dev; holding = true })
Settled stuck file ws s (leave r s') =
    ((r ≡ err eagain) × (file.nonblock ≡ true) ⊎ (r ≡ err erestartsys)) × (s'.holding ≡ false)
Settled stuck file ws s (sleeping s') = (file.nonblock ≡ false) × (s'.holding ≡ false)

settle :
    (stuck : ScullPipe → Bool) (file : File) (ws : List Wakeup) (s : Session) (rest : Waited)
    → s.holding ≡ true
    → Seen ws s.dev s.dev
    → (file.nonblock ≡ false → Settled stuck file ws s rest)
    → Settled stuck file ws s (if stuck s.dev then blocked file s rest else ready s)
settle stuck file ws s rest h here next = elim (Bool-cases (stuck s.dev)) [
  | inr go ↦ rw go (go, here, ground arith)
  | inl e ↦ elim (Bool-cases file.nonblock) [
    | inl n ↦ rw e (simp n (inl (refl, refl), refl))
    | inr n ↦ rw e (simp n (next n))
  ]
]

-- What is seen after a sleep is seen by the whole loop.
resume :
    (stuck : ScullPipe → Bool) (file : File) (d : ScullPipe) (ws : List Wakeup) (s : Session)
    (w : Waited)
    → Settled stuck file ws (lock (record s { dev = d })) w
    → Settled stuck file (resumed d ∷ ws) s w
resume stuck file d ws s (ready s') (go, seen, e) = (go, inr seen, e)
resume stuck file d ws s (leave r s') h = h
resume stuck file d ws s (sleeping s') h = h

pub sleep_while-Settled :
    (stuck : ScullPipe → Bool) (file : File) (ws : List Wakeup) (s : Session)
    → s.holding ≡ true
    → Settled stuck file ws s (sleep_while stuck file ws s)
unfolding sleep_while
sleep_while-Settled stuck file [] s h = settle stuck file [] s _ h refl (λ n. (n, refl))
sleep_while-Settled stuck file (signal ∷ ws) s h =
    settle stuck file (signal ∷ ws) s _ h refl (λ n. (inr refl, refl))
sleep_while-Settled stuck file (lock_signal ∷ ws) s h =
    settle stuck file (lock_signal ∷ ws) s _ h refl (λ n. (inr refl, refl))
sleep_while-Settled stuck file (resumed d ∷ ws) s h =
    settle stuck file (resumed d ∷ ws) s _ h (inl refl) (λ n.
      resume stuck file d ws s _
        (sleep_while-Settled stuck file ws (lock (record s { dev = d })) refl))

-- A handler that ends has released the lock, and no handler touches memory outside the buffer.
abbrev pub IsClean : Outcome → Type 0
IsClean (returned r s) = s.holding ≡ false
IsClean (asleep s) = s.holding ≡ false
IsClean oops = ⊥

-- The end of file of the device with the proper behaviour: empty, and no process has it open for
-- writing.
abbrev pub is_at_end : ScullPipe → Bool
is_at_end dev = (dev.idx == proper_fifo_beh_idx) && (is_empty dev && (dev.writers == 0))

abbrev pub reading : Kernel → ℕ → ℕ → Waited → Outcome
reading k buf count (ready s) = take_out k s buf count
reading k buf count (leave r s) = returned r s
reading k buf count (sleeping s) = asleep s

abbrev pub writing : Kernel → ℕ → ℕ → Waited → Outcome
writing k buf count (ready s) = put_in k s buf count
writing k buf count (leave r s) = returned r s
writing k buf count (sleeping s) = asleep s

module _ (k : Kernel) (linux : IsLinux k) where
  take_out-IsClean :
      (s : Session) (buf count : ℕ)
      → IsOpen s.dev
      → is_empty s.dev ≡ false
      → IsClean (take_out k s buf count)
  unfolding take_out
  take_out-IsClean s buf count v ne =
      let (b, at) = open_buffer s.dev v in
      let safe = take_out_safe k linux s b buf count v (λ e. ground arith) at in ground arith

  put_in-IsClean :
      (s : Session) (buf count : ℕ)
      → IsOpen s.dev
      → is_full s.dev ≡ false
      → IsClean (put_in k s buf count)
  unfolding put_in
  put_in-IsClean s buf count v room =
      let (b, at) = open_buffer s.dev v in
      let safe = put_in_safe k linux s b buf count v (λ e. ground arith) at in ground arith

  pub reading-IsClean :
      (file : File) (ws : List Wakeup) (s : Session) (buf count : ℕ) (w : Waited)
      → AllOpen ws s.dev
      → Settled is_empty file ws s w
      → IsClean (reading k buf count w)
  reading-IsClean file ws s buf count (ready s') v (go, seen, e) =
      take_out-IsClean s' buf count (v s'.dev seen) go
  reading-IsClean file ws s buf count (leave r s') v h = h.1
  reading-IsClean file ws s buf count (sleeping s') v h = h.1

  pub writing-IsClean :
      (file : File) (ws : List Wakeup) (s : Session) (buf count : ℕ) (w : Waited)
      → AllOpen ws s.dev
      → Settled is_full file ws s w
      → IsClean (writing k buf count w)
  writing-IsClean file ws s buf count (ready s') v (go, seen, e) =
      put_in-IsClean s' buf count (v s'.dev seen) go
  writing-IsClean file ws s buf count (leave r s') v h = h.1
  writing-IsClean file ws s buf count (sleeping s') v h = h.1

  pub reading-Took :
      (file : File) (ws : List Wakeup) (s : Session) (buf count n : ℕ) (s' : Session) (w : Waited)
      → AllOpen ws s.dev
      → Settled is_empty file ws s w
      → reading k buf count w ≡ returned (ok n) s'
      → (d : ScullPipe) × Seen ws s.dev d
        × (d.rp ≢ d.wp)
        × Took (record s { dev = d; holding = true }) buf count n s'
  reading-Took file ws s buf count n s' (ready t) v (go, seen, e) h =
      let (b, at) = open_buffer t.dev (v t.dev seen) in
      let ne : t.dev.rp ≢ t.dev.wp = λ p. ground arith in
      let t' = record s { dev = t.dev; holding = true } in
      (t.dev, seen, ne, take_out-Took k linux t' b buf count n s' (v t.dev seen) ne at (rw (← e) h))
  reading-Took file ws s buf count n s' (leave r t) v h e = absurd (ground arith)
  reading-Took file ws s buf count n s' (sleeping t) v h e = cc

  pub writing-Put :
      (file : File) (ws : List Wakeup) (s : Session) (buf count n : ℕ) (s' : Session) (w : Waited)
      → AllOpen ws s.dev
      → Settled is_full file ws s w
      → writing k buf count w ≡ returned (ok n) s'
      → (d : ScullPipe) × Seen ws s.dev d
        × (spacefree d ≢ 0)
        × Put (record s { dev = d; holding = true }) buf count n s'
  writing-Put file ws s buf count n s' (ready t) v (go, seen, e) h =
      let (b, at) = open_buffer t.dev (v t.dev seen) in
      let room : spacefree t.dev ≢ 0 = λ p. ground arith in
      let t' = record s { dev = t.dev; holding = true } in
      (
        t.dev,
        seen,
        room,
        put_in-Put k linux t' b buf count n s' (v t.dev seen) room at (rw (← e) h),
      )
  writing-Put file ws s buf count n s' (leave r t) v h e = absurd (ground arith)
  writing-Put file ws s buf count n s' (sleeping t) v h e = cc
