-- ===== src/Edu/System.antt =====
-- The interrupt test and the handlers together: any number of calls, interrupts and timeouts, in
-- any order, one step for each piece of code that runs with `edu->lock` held.
use ldd3_workshop.Prelude.{
  ℕ, suc, none, some, add64, ◌≡◌, ◌⊎◌, refl, Bool, true, false, List, arith,
}
use ldd3_workshop.Kernel.{ebusy, ecanceled}
use ldd3_workshop.Edu.State.{QeduDevice, qedu_is_irq_done}
use ldd3_workshop.Edu.Irq.{
  is_irq_raised, is_irq_set, is_busy_irq, handle_irq_locked, qedu_handle_irq, qedu_thr_handle_irq,
  qedu_timeout,
}
use ldd3_workshop.Edu.TestIrq.{Wakeup, error, start_test, finish_test, test_irq_show}

-- The device, and the number of calls of `test_irq_show` that are asleep in it.
pub record System : Type 0 where
  pub dev : QeduDevice
  pub testers : ℕ

pub data Step : System → System → Type 0 where
  hard_irq :
      (intr_status : ℕ) (locked : Bool) (s : System)
      → Step s (record s { dev = (qedu_handle_irq intr_status locked s.dev).1 })
  thread_irq :
      (intr_status : ℕ) (s : System)
      → Step s (record s { dev = (qedu_thr_handle_irq intr_status s.dev).1 })
  timeout :
      (intr_status status dma_status jiffies : ℕ) (s : System)
      → Step s (record s { dev = qedu_timeout intr_status status dma_status jiffies s.dev })
  shut_down :
      (s : System)
      → Step s (record s { dev = record s.dev { state = record s.dev.state { shutdown = true } } })
  start :
      (jiffies : ℕ) (s : System)
      → s.dev.state.shutdown ≡ false
      → s.dev.state.irq_wait ≡ false
      → Step s (record { dev = start_test jiffies s.dev; testers = suc s.testers })
  finish :
      (s : System) (n : ℕ)
      → s.testers ≡ suc n
      → qedu_is_irq_done s.dev ≡ true
      → Step s (record { dev = (finish_test s.dev).1; testers = n })
  interrupt : (s : System) (n : ℕ) → s.testers ≡ suc n → Step s (record s { testers = n })

pub data Steps : System → System → Type 0 where
  stay : (s : System) → Steps s s
  step : {s t u : System} → Step s t → Steps t u → Steps s u

-- At most one test sleeps, and where one does, IRQ_WAIT is set.
unfoldable pub IsExclusive : System → Type 0
IsExclusive s = (s.testers ≡ 0) ⊎ ((s.testers ≡ 1) × (s.dev.state.irq_wait ≡ true))

-- No test sleeps, and yet IRQ_WAIT is set.
unfoldable pub IsStuck : System → Type 0
IsStuck s = (s.testers ≡ 0) × (s.dev.state.irq_wait ≡ true)

Step-IsExclusive : {s t : System} → Step s t → IsExclusive s → IsExclusive t
unfolding IsExclusive
Step-IsExclusive (hard_irq i l s) v = unfold qedu_handle_irq handle_irq_locked in ground arith
Step-IsExclusive (thread_irq i s) v = unfold qedu_thr_handle_irq handle_irq_locked in ground arith
Step-IsExclusive (timeout i a b j s) v = unfold qedu_timeout in ground arith
Step-IsExclusive (shut_down s) v = ground arith
Step-IsExclusive (start j s up free) v = unfold start_test in ground arith
Step-IsExclusive (finish s n e done) v = ground arith
Step-IsExclusive (interrupt s n e) v = ground arith

Steps-IsExclusive : {s t : System} → Steps s t → IsExclusive s → IsExclusive t
Steps-IsExclusive (stay s) v = v
Steps-IsExclusive (step first rest) v = Steps-IsExclusive rest (Step-IsExclusive first v)

-- In any run of calls, interrupts, timeouts and signals from a state where no test sleeps, or one
-- does with IRQ_WAIT set, the same holds at its end: two tests never wait at the same time.
pub one_test : (s t : System) → Steps s t → IsExclusive s → IsExclusive t
one_test s t run v = Steps-IsExclusive run v

Step-IsStuck : {s t : System} → Step s t → IsStuck s → IsStuck t
unfolding IsStuck
Step-IsStuck (hard_irq i l s) v = unfold qedu_handle_irq handle_irq_locked in ground arith
Step-IsStuck (thread_irq i s) v = unfold qedu_thr_handle_irq handle_irq_locked in ground arith
Step-IsStuck (timeout i a b j s) v = unfold qedu_timeout in ground arith
Step-IsStuck (shut_down s) v = ground arith
Step-IsStuck (start j s up free) v = ground arith
Step-IsStuck (finish s n e done) v = ground arith
Step-IsStuck (interrupt s n e) v = ground arith

Steps-IsStuck : {s t : System} → Steps s t → IsStuck s → IsStuck t
Steps-IsStuck (stay s) v = v
Steps-IsStuck (step first rest) v = Steps-IsStuck rest (Step-IsStuck first v)

-- Once a signal ends the only test that waits, every later call fails, whatever interrupts,
-- timeouts and calls come between: with EBUSY, or with ECANCELED if the device shuts down.
pub interrupted_test_sticks :
    (s t : System) (jiffies : ℕ) (ws : List Wakeup)
    → IsExclusive s
    → s.testers ≡ 1
    → Steps (record s { testers = 0 }) t
    → ((test_irq_show jiffies ws t.dev).0 ≡ error ebusy)
      ⊎ ((test_irq_show jiffies ws t.dev).0 ≡ error ecanceled)
unfolding IsExclusive IsStuck test_irq_show
interrupted_test_sticks s t jiffies ws v one run =
    let stuck = Steps-IsStuck run (refl, ground arith) in ground arith

-- A timeout never strands a test that waits: where it does not end the test by IRQ_TIMEDOUT and a
-- wake-up, an interrupt is raised, or the device is busy and the timer runs again for `timeout`.
pub timeout_goes_on :
    (intr_status status dma_status jiffies : ℕ) (edu : QeduDevice)
    → let edu' = qedu_timeout intr_status status dma_status jiffies edu in
      ((is_irq_raised intr_status ≡ true) × (edu' ≡ record edu { timer = none }))
      ⊎ (((qedu_is_irq_done edu' ≡ true)
            × (edu'.state.irq_timedout ≡ true)
            × (edu'.wakes ≡ suc edu.wakes))
          ⊎ ((is_irq_raised intr_status ≡ false)
              × (is_irq_set status dma_status ≡ true)
              × (is_busy_irq status dma_status ≡ true)
              × (edu' ≡ record edu { timer = some (add64 jiffies edu.timeout) })))
unfolding qedu_timeout qedu_is_irq_done
timeout_goes_on intr_status status dma_status jiffies edu = ground arith
