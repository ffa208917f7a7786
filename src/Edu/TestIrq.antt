-- ===== src/Edu/TestIrq.antt =====
-- `test_irq_show` of edu/sysfs.c: raise an interrupt and wait until it is handled or times out.
use ldd3_workshop.Prelude.{
  ℕ, some, add64, ◌≡◌, ◌⊎◌, inl, inr, refl, Bool, true, false, List, [], ◌∷◌, if◌then◌else◌, arith,
  Bool-cases,
}
use ldd3_workshop.Kernel.{Errno, ebusy, ecanceled, erestartsys}
use ldd3_workshop.Edu.State.{
  Flags, QeduDevice, qedu_intr_raise_reg, qedu_is_irq_done, qedu_is_shutting_down,
  qedu_is_waiting_irq, qedu_set_waiting_irq, qedu_clear_waiting_irq,
}

-- How a sleep of the loop ends: a signal is pending, or the lock is taken again, on the device as
-- the handlers left it.
pub data Wakeup : Type 0 where
  signal : Wakeup
  resumed : QeduDevice → Wakeup

-- What the call gives: an error, one of the two lines of text, or it still sleeps.
pub data Shown : Type 0 where
  error : Errno → Shown
  irq_works : Shown
  irq_fails : Flags → Shown
  waiting : Shown

-- Lines 77 and 78.
unfoldable pub start_test : ℕ → QeduDevice → QeduDevice
unfolding qedu_set_waiting_irq
start_test jiffies edu =
    qedu_set_waiting_irq jiffies
      (record edu { writes = record { reg = qedu_intr_raise_reg; value = 2 } ∷ edu.writes })

-- Lines 92 to 97.
unfoldable pub finish_test : QeduDevice → Shown × QeduDevice
unfolding qedu_clear_waiting_irq
finish_test edu =
    (if edu.state.irq_ok then irq_works else irq_fails edu.state, qedu_clear_waiting_irq edu)

-- Lines 79 to 97.
unfoldable pub wait_irq : List Wakeup → QeduDevice → Shown × QeduDevice
wait_irq [] edu = if qedu_is_irq_done edu then finish_test edu else (waiting, edu)
wait_irq (signal ∷ ws) edu =
    if qedu_is_irq_done edu then finish_test edu else (error erestartsys, edu)
wait_irq (resumed edu' ∷ ws) edu =
    let rest = wait_irq ws edu' in if qedu_is_irq_done edu then finish_test edu else rest

unfoldable pub test_irq_show : ℕ → List Wakeup → QeduDevice → Shown × QeduDevice
test_irq_show jiffies ws edu =
    if qedu_is_shutting_down edu
    then (error ecanceled, edu)
    else if qedu_is_waiting_irq edu
    then (error ebusy, edu)
    else wait_irq ws (start_test jiffies edu)

-- `d` is the device of the call, or one that the call found after a sleep.
abbrev pub Seen : List Wakeup → QeduDevice → QeduDevice → Type 0
Seen [] d₀ d = d ≡ d₀
Seen (signal ∷ ws) d₀ d = d ≡ d₀
Seen (resumed d₁ ∷ ws) d₀ d = (d ≡ d₀) ⊎ Seen ws d₁ d

-- How the wait ends, from the device `d₀` on: each end is decided on a device that the call has
-- seen.
abbrev pub Ended : List Wakeup → QeduDevice → Shown → QeduDevice → Type 0
Ended ws d₀ irq_works d' =
    (d : QeduDevice) × Seen ws d₀ d × (d.state.irq_ok ≡ true) × (d' ≡ qedu_clear_waiting_irq d)
Ended ws d₀ (irq_fails f) d' =
    (d : QeduDevice) × Seen ws d₀ d
    × (d.state.irq_ok ≡ false)
    × ((d.state.irq_timedout ≡ true) ⊎ (d.state.shutdown ≡ true))
    × (f ≡ d.state)
    × (d' ≡ qedu_clear_waiting_irq d)
Ended ws d₀ (error e) d' = Seen ws d₀ d' × (qedu_is_irq_done d' ≡ false) × (e ≡ erestartsys)
Ended ws d₀ waiting d' = Seen ws d₀ d' × (qedu_is_irq_done d' ≡ false)

Seen-start : (ws : List Wakeup) (d : QeduDevice) → Seen ws d d
Seen-start [] d = refl
Seen-start (signal ∷ ws) d = refl
Seen-start (resumed e ∷ ws) d = inl refl

finish_test-Ended :
    (ws : List Wakeup) (d : QeduDevice)
    → qedu_is_irq_done d ≡ true
    → Ended ws d (finish_test d).0 (finish_test d).1
unfolding finish_test qedu_is_irq_done
finish_test-Ended ws d done = by_irq_ok d.state.irq_ok refl
  where
    by_irq_ok :
        (b : Bool)
        → d.state.irq_ok ≡ b
        → Ended ws d (if b then irq_works else irq_fails d.state) (qedu_clear_waiting_irq d)
    by_irq_ok true e = (d, Seen-start ws d, e, refl)
    by_irq_ok false e = (d, Seen-start ws d, e, ground arith, refl, refl)

Ended-resumed :
    (ws : List Wakeup) (d e : QeduDevice) (r : Shown) (d' : QeduDevice)
    → Ended ws e r d'
    → Ended (resumed e ∷ ws) d r d'
Ended-resumed ws d e irq_works d' (x, seen, e₁, e₂) = (x, inr seen, e₁, e₂)
Ended-resumed ws d e (irq_fails f) d' (x, seen, e₁, e₂, e₃, e₄) = (x, inr seen, e₁, e₂, e₃, e₄)
Ended-resumed ws d e (error n) d' (seen, open_, is_signal) = (inr seen, open_, is_signal)
Ended-resumed ws d e waiting d' (seen, rest) = (inr seen, rest)

wait_irq-Ended :
    (ws : List Wakeup) (d : QeduDevice) → Ended ws d (wait_irq ws d).0 (wait_irq ws d).1
unfolding wait_irq
wait_irq-Ended [] d = elim (Bool-cases (qedu_is_irq_done d)) [
  | inl done ↦ rw done (finish_test-Ended [] d done)
  | inr more ↦ rw more (refl, more)
]
wait_irq-Ended (signal ∷ ws) d = elim (Bool-cases (qedu_is_irq_done d)) [
  | inl done ↦ rw done (finish_test-Ended (signal ∷ ws) d done)
  | inr more ↦ rw more (refl, more, refl)
]
wait_irq-Ended (resumed e ∷ ws) d = elim (Bool-cases (qedu_is_irq_done d)) [
  | inl done ↦ rw done (finish_test-Ended (resumed e ∷ ws) d done)
  | inr more ↦ rw more (Ended-resumed ws d e _ _ (wait_irq-Ended ws e))
]

-- The interrupt test, on all its paths: it returns ECANCELED exactly while the device shuts down,
-- and EBUSY where another test waits, both without a change; otherwise "IRQ OK" only if it saw
-- a device with IRQ_OK, "IRQ FAIL" only if it saw one without IRQ_OK that had timed out or shuts
-- down, both with the three flags of a test cleared in it, and a signal ends it, or it still
-- sleeps, only with the device as it last saw it and no result there.
pub test_irq_show-Ended :
    (jiffies : ℕ) (ws : List Wakeup) (edu : QeduDevice)
    → let r = test_irq_show jiffies ws edu in
      ((edu.state.shutdown ≡ true) × (r ≡ (error ecanceled, edu)))
      ⊎ (((edu.state.shutdown ≡ false) × (edu.state.irq_wait ≡ true) × (r ≡ (error ebusy, edu)))
          ⊎ ((edu.state.shutdown ≡ false)
              × (edu.state.irq_wait ≡ false)
              × Ended ws (start_test jiffies edu) r.0 r.1))
unfolding test_irq_show
test_irq_show-Ended jiffies ws edu = by_state edu.state.shutdown refl edu.state.irq_wait refl
  where
    by_state :
        (down : Bool)
        → edu.state.shutdown ≡ down
        → (busy : Bool) → edu.state.irq_wait ≡ busy
        → let r =
            if down
            then (error ecanceled, edu)
            else if busy
            then (error ebusy, edu)
            else wait_irq ws (start_test jiffies edu) in
          ((edu.state.shutdown ≡ true) × (r ≡ (error ecanceled, edu)))
          ⊎ (((edu.state.shutdown ≡ false) × (edu.state.irq_wait ≡ true) × (r ≡ (error ebusy, edu)))
              ⊎ ((edu.state.shutdown ≡ false)
                  × (edu.state.irq_wait ≡ false)
                  × Ended ws (start_test jiffies edu) r.0 r.1))
    by_state true e busy e' = inl (e, refl)
    by_state false e true e' = inr (inl (e, e', refl))
    by_state false e false e' = inr (inr (e, e', wait_irq-Ended ws (start_test jiffies edu)))

wait_irq_at_once :
    (ws : List Wakeup) (d : QeduDevice) → qedu_is_irq_done d ≡ true → wait_irq ws d ≡ finish_test d
unfolding wait_irq
wait_irq_at_once [] d done = rw done refl
wait_irq_at_once (signal ∷ ws) d done = rw done refl
wait_irq_at_once (resumed e ∷ ws) d done = rw done refl

-- An IRQ_OK left over from an interrupt outside a test makes the next test report success before
-- its own interrupt can arrive, whatever happens meanwhile; the test ends with its timer pending,
-- so that the next `add_timer` meets a pending timer.
pub stale_irq_ok :
    (jiffies : ℕ) (ws : List Wakeup) (edu : QeduDevice)
    → edu.state.shutdown ≡ false
    → edu.state.irq_wait ≡ false
    → edu.state.irq_ok ≡ true
    → let r = test_irq_show jiffies ws edu in
      (r.0 ≡ irq_works)
      × (r.1.timer ≡ some (add64 jiffies edu.timeout))
      × (r.1.state.irq_wait ≡ false)
unfolding test_irq_show start_test finish_test qedu_set_waiting_irq qedu_clear_waiting_irq
    qedu_is_irq_done
stale_irq_ok jiffies ws edu up free is_ok =
    let done : qedu_is_irq_done (start_test jiffies edu) ≡ true = ground arith in
    let ends = wait_irq_at_once ws (start_test jiffies edu) done in ground arith
