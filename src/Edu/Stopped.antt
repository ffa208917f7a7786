-- ===== src/Edu/Stopped.antt =====
-- After QEDU_STATE_SHUTDOWN is set (edu/init.c), nothing in the driver arms the timer again.
use ldd3_workshop.Prelude.{
  ℕ, ◌≡◌, refl, ap, ◌∙◌, Bool, true, false, none, [], arith, if◌then◌else◌, Bool-cases, inl, inr,
}
use ldd3_workshop.Edu.State.{QeduDevice}
use ldd3_workshop.Edu.Irq.{qedu_handle_irq, qedu_thr_handle_irq, handle_irq_locked, qedu_timeout}
use ldd3_workshop.Edu.TestIrq.{test_irq_show, finish_test}
use ldd3_workshop.Edu.Release.{
  Driver, is_pending, lock, meanwhile, unlock, kfree, fault, timer_pending, set_shutdown,
  stop_timer, wait_for_test, release_all, remove_locked,
}

-- What other code does while the lock is released, where the device is shutting down: that flag stays,
-- and a timer that is not pending stays so.
abbrev pub LeavesStopped : (QeduDevice → QeduDevice) → Type 0
LeavesStopped others =
    (edu : QeduDevice)
    → edu.state.shutdown ≡ true
    → ((others edu).state.shutdown ≡ true) × (edu.timer ≡ none → (others edu).timer ≡ none)

-- The timeout, which runs only while the timer is pending.
abbrev pub timeout_if_pending : ℕ → ℕ → ℕ → ℕ → QeduDevice → QeduDevice
timeout_if_pending intr_status status dma_status jiffies edu =
    if is_pending edu.timer then qedu_timeout intr_status status dma_status jiffies edu else edu

-- The code of the driver is like this: the handlers, the timeout, and a test that begins or ends.
pub handlers_leave_stopped :
    (intr_status status dma_status jiffies : ℕ) (locked : Bool)
    → LeavesStopped (λ edu. (qedu_handle_irq intr_status locked edu).1)
      × LeavesStopped (λ edu. (qedu_thr_handle_irq intr_status edu).1)
      × LeavesStopped (timeout_if_pending intr_status status dma_status jiffies)
      × LeavesStopped (λ edu. (test_irq_show jiffies [] edu).1)
      × LeavesStopped (λ edu. (finish_test edu).1)
unfolding qedu_handle_irq qedu_thr_handle_irq handle_irq_locked qedu_timeout test_irq_show
    finish_test
handlers_leave_stopped i a b j l = (
  λ edu s. (ground arith, λ e. ground arith),
  λ edu s. (s, λ e. refl),
  λ edu s. (ground arith, λ e. ground arith),
  λ edu s. (ground arith, λ e. ground arith),
  λ edu s. (s, λ e. e),
)

abbrev pub IsStopped : Driver → Type 0
IsStopped d = (d.device.state.shutdown ≡ true) × (d.device.timer ≡ none)

unlock-device : (d : Driver) → (unlock d).device ≡ d.device
unlock-device d = ground arith

-- The free of the structure where the lock is held and the timer is not pending.
pub kfree-unlock :
    (d : Driver)
    → d.locked ≡ true
    → d.device.timer ≡ none
    → kfree (unlock d) ≡ record d { locked = false; memory = false }
kfree-unlock d l e =
    let unlocked : unlock d ≡ record d { locked = false } = ground arith in
    let d' = record d { locked = false } in
    let idle : is_pending d'.device.timer ≡ false = ap is_pending e in
    let freed : kfree d' ≡ record d' { memory = false } =
      ap (λ b. record (if b then fault timer_pending d' else d') { memory = false }) idle in
    ap kfree unlocked ∙ freed

-- What it leaves alone in any case.
pub kfree-keeps :
    (d : Driver)
    → ((kfree (unlock d)).vectors ≡ d.vectors) × ((kfree (unlock d)).drvdata ≡ d.drvdata)
kfree-keeps d = elim (Bool-cases d.locked) [
  | inl l ↦ elim (Bool-cases (is_pending d.device.timer)) [
    | inl e ↦ (ground arith, ground arith)
    | inr e ↦ (ground arith, ground arith)
  ]
  | inr l ↦ elim (Bool-cases (is_pending d.device.timer)) [
    | inl e ↦ (ground arith, ground arith)
    | inr e ↦ (ground arith, ground arith)
  ]
]

module _ (others : QeduDevice → QeduDevice) (leaves : LeavesStopped others) where
  stop_timer-IsStopped : (d : Driver) → IsStopped (stop_timer others d)
  unfolding stop_timer
  stop_timer-IsStopped d =
      let d' = set_shutdown d in ((leaves (unlock d').device (rw (unlock-device d') refl)).0, refl)

  wait_for_test-IsStopped : (d : Driver) → IsStopped d → IsStopped (wait_for_test others d)
  unfolding wait_for_test
  wait_for_test-IsStopped d (s, e) = elim (Bool-cases d.device.state.irq_wait) [
    | inl waits ↦
        (let same = unlock-device d in
          let (s', e') = leaves (unlock d).device (rw same s) in
          let goes : wait_for_test others d ≡ lock (meanwhile others (unlock d)) = ground arith in
          rw goes (s', e' (rw same e)))
    | inr idle ↦ (let stays : wait_for_test others d ≡ d = ground arith in rw stays (s, e))
  ]

  release_all-device : (d : Driver) → (release_all d).device ≡ d.device
  unfolding release_all
  release_all-device d = ground arith

  -- The structure is freed with its timer deleted.
  pub remove_locked-IsStopped : (d : Driver) → IsStopped (remove_locked others d)
  unfolding remove_locked
  remove_locked-IsStopped d =
      let d' = wait_for_test others (stop_timer others d) in
      rw (release_all-device d') (wait_for_test-IsStopped _ (stop_timer-IsStopped d))
