-- ===== src/Edu/State.antt =====
-- The device state of edu/hw.h and the helpers of edu/state.h.
use ldd3_workshop.Prelude.{ℕ, Bool, true, false, Option, some, List, ◌||◌, add64}

-- The four bits of `state`: QEDU_STATE_IRQ_WAIT, IRQ_OK, IRQ_TIMEDOUT and SHUTDOWN.
pub record Flags : Type 0 where
  pub irq_wait : Bool
  pub irq_ok : Bool
  pub irq_timedout : Bool
  pub shutdown : Bool

-- A write of a value to a register.
pub record Writel : Type 0 where
  pub reg : ℕ
  pub value : ℕ

abbrev pub qedu_intr_raise_reg : ℕ
qedu_intr_raise_reg = 0x60

abbrev pub qedu_intr_ack_reg : ℕ
qedu_intr_ack_reg = 0x64

-- The fields of `struct qedu_device` that change after the probe, but for the lock: each section
-- below runs with it held. `timer` is the expiry of the pending timer, `writes` the register
-- writes, the last one first, and `wakes` the number of wake-ups of `irq_q`.
pub record QeduDevice : Type 0 where
  pub state : Flags
  pub timeout : ℕ
  pub timer : Option ℕ
  pub writes : List Writel
  pub wakes : ℕ

unfoldable pub qedu_is_irq_done : QeduDevice → Bool
qedu_is_irq_done edu = edu.state.irq_ok || (edu.state.irq_timedout || edu.state.shutdown)

abbrev pub qedu_is_shutting_down : QeduDevice → Bool
qedu_is_shutting_down edu = edu.state.shutdown

abbrev pub qedu_is_waiting_irq : QeduDevice → Bool
qedu_is_waiting_irq edu = edu.state.irq_wait

unfoldable pub qedu_set_waiting_irq : ℕ → QeduDevice → QeduDevice
qedu_set_waiting_irq jiffies edu = record edu {
  state = record edu.state { irq_wait = true };
  timer = some (add64 jiffies edu.timeout);
}

unfoldable pub qedu_clear_waiting_irq : QeduDevice → QeduDevice
qedu_clear_waiting_irq edu = record edu {
  state = record edu.state { irq_wait = false; irq_ok = false; irq_timedout = false };
}
