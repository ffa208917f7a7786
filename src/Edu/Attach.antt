-- ===== src/Edu/Attach.antt =====
-- What a probe of the edu driver (edu/init.c) holds at its end, on each of its paths.
use ldd3_workshop.Prelude.{◌≡◌, ◌⊎◌, Bool, true, false, none, some, [], ◌∷◌, if◌then◌else◌}
use ldd3_workshop.Kernel.{Errno, Ret, ok, err}
use ldd3_workshop.Edu.Release.{irq_not_requested, Driver}
use ldd3_workshop.Edu.Probe.{Pci, qedu_is_id, qedu_default_dma_mask}

-- The driver holds nothing of the device that it can still give back.
pub record IsDetached (d : Driver) : Type 0 where
  pub no_memory : d.memory ≡ false
  pub unlocked : d.locked ≡ false
  pub disabled : d.enabled ≡ false
  pub no_region : d.region ≡ false
  pub unmapped : d.mapped ≡ false
  pub no_irq : d.irq ≡ false

-- The driver holds all that it needs.
pub record IsAttached (d : Driver) : Type 0 where
  pub memory : d.memory ≡ true
  pub unlocked : d.locked ≡ false
  pub enabled : d.enabled ≡ true
  pub region : d.region ≡ true
  pub mapped : d.mapped ≡ true
  pub irq : d.irq ≡ true
  pub drvdata : d.drvdata ≡ true
  pub pointer : d.qedu_dev ≡ true
  pub version : d.files.version ≡ true
  pub inverse : d.files.inverse ≡ true
  pub test_irq : d.files.test_irq ≡ true
  pub vectors : d.vectors ≡ d.edu_use_msi
  pub no_faults : d.faults ≡ []

-- What stands at the label `fail` and before: all is taken but perhaps the interrupt.
pub record IsMapped (d : Driver) : Type 0 where
  pub memory : d.memory ≡ true
  pub locked : d.locked ≡ true
  pub enabled : d.enabled ≡ true
  pub region : d.region ≡ true
  pub mapped : d.mapped ≡ true
  pub pointer : d.qedu_dev ≡ true
  pub no_timer : d.device.timer ≡ none
  pub no_msi_yet : d.edu_use_msi ≡ false
  pub no_faults : d.faults ≡ []

abbrev pub is_error : Ret → Bool
is_error (ok _) = false
is_error (err _) = true

-- The mask that a probe ends with, or the default one, is refused.
abbrev pub IsMaskRefused : Pci → Driver → Type 0
IsMaskRefused p d =
    (e : Errno) × ((p.set_dma_mask qedu_default_dma_mask ≡ some e)
      ⊎ (p.set_consistent_dma_mask d.dma_mask ≡ some e))

-- What a probe that ends detached leaves: the vectors, if they were allocated, and the fault of an
-- interrupt that is freed without having been requested, if a mask is refused.
abbrev pub Leftover : Pci → Driver → Type 0
Leftover p d =
    ((d.vectors ≡ false) ⊎ (p.alloc_irq_vectors ≡ none))
    × ((d.faults ≡ []) ⊎ ((d.faults ≡ irq_not_requested ∷ []) × IsMaskRefused p d))

-- How a probe ends: attached with success, or detached, with an error or with success although the
-- identification is wrong.
abbrev pub Probed : Pci → Ret × Driver → Type 0
Probed p r =
    ((r.0 ≡ ok 0) × IsAttached r.1)
    ⊎ (IsDetached r.1
        × Leftover p r.1
        × ((is_error r.0 ≡ true) ⊎ ((r.0 ≡ ok 0) × (qedu_is_id p.id_reg ≡ false))))

-- What the unwinding leaves of a driver that was mapped.
record IsUnwound (d d' : Driver) : Type 0 where
  locked : d'.locked ≡ true
  disabled : d'.enabled ≡ false
  no_region : d'.region ≡ false
  unmapped : d'.mapped ≡ false
  no_irq : d'.irq ≡ false
  same_vectors : d'.vectors ≡ d.vectors
  same_mask : d'.dma_mask ≡ d.dma_mask
  faults : d'.faults ≡ (if d.irq then [] else irq_not_requested ∷ [])
