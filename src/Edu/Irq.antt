-- ===== src/Edu/Irq.antt =====
-- The interrupt handlers and the timeout of edu/irq.c. What `readl` gives is an argument, named
-- for its register.
use ldd3_workshop.Prelude.{
  ℕ, suc, ◌/◌, ◌%◌, Bool, true, not, none, some, ◌∷◌, ◌||◌, ◌==◌, if◌then◌else◌, add64,
}
use ldd3_workshop.Edu.State.{QeduDevice, qedu_intr_ack_reg}

pub data IrqReturn : Type 0 where
  irq_none irq_handled irq_wake_thread : IrqReturn

-- `!!(intr_status & 7)`.
abbrev pub is_irq_raised : ℕ → Bool
is_irq_raised intr_status = not (intr_status % 8 == 0)

-- `__qedu_handle_irq`: the timer is deleted and the interrupt acknowledged.
unfoldable pub handle_irq_locked : ℕ → QeduDevice → QeduDevice
handle_irq_locked intr_status edu = record edu {
  timer = none;
  state = record edu.state { irq_ok = true };
  writes = record { reg = qedu_intr_ack_reg; value = intr_status } ∷ edu.writes;
  wakes = suc edu.wakes;
}

-- `locked` is the result of `spin_trylock_irqsave`.
unfoldable pub qedu_handle_irq : ℕ → Bool → QeduDevice → IrqReturn × QeduDevice
unfolding handle_irq_locked
qedu_handle_irq intr_status locked edu =
    if not (is_irq_raised intr_status)
    then (irq_none, edu)
    else if locked
    then (irq_handled, handle_irq_locked intr_status edu)
    else (irq_wake_thread, edu)

unfoldable pub qedu_thr_handle_irq : ℕ → QeduDevice → IrqReturn × QeduDevice
unfolding handle_irq_locked
qedu_thr_handle_irq intr_status edu = (irq_handled, handle_irq_locked intr_status edu)

-- `status & 0x80` and `dma_status & 0x04`.
abbrev pub is_irq_set : ℕ → ℕ → Bool
is_irq_set status dma_status = (status / 128 % 2 == 1) || (dma_status / 4 % 2 == 1)

-- `status & 0x01` and `dma_status & 0x01`.
abbrev pub is_busy_irq : ℕ → ℕ → Bool
is_busy_irq status dma_status = (status % 2 == 1) || (dma_status % 2 == 1)

-- Lines 89 to 91.
abbrev pub set_timeout : QeduDevice → QeduDevice
set_timeout edu = record edu {
  state = record edu.state { irq_timedout = true };
  wakes = suc edu.wakes;
}

-- The timer has expired, so it is no longer pending when the handler runs.
unfoldable pub qedu_timeout : ℕ → ℕ → ℕ → ℕ → QeduDevice → QeduDevice
qedu_timeout intr_status status dma_status jiffies edu =
    let edu' = record edu { timer = none } in
    if is_irq_raised intr_status
    then edu'
    else if not (is_irq_set status dma_status)
    then set_timeout edu'
    else if is_busy_irq status dma_status
    then record edu' { timer = some (add64 jiffies edu.timeout) }
    else set_timeout edu'
