-- ===== src/Edu/Release.antt =====
-- What the edu driver (edu/init.c) holds, and `qedu_remove`, which gives it back.
use ldd3_workshop.Prelude.{ℕ, Bool, true, false, not, Option, none, some, List, ◌∷◌, if◌then◌else◌}
use ldd3_workshop.Edu.State.{QeduDevice}

-- A release of what is not held, a use of memory that was freed, or a free of the structure while its
-- timer is pending. That `free_irq` may sleep though the lock is held is not among them.
pub data Fault : Type 0 where
  irq_not_requested no_vectors not_mapped not_enabled not_locked use_after_free timer_pending :
      Fault

-- The sysfs files that are there.
pub record Files : Type 0 where
  pub version : Bool
  pub inverse : Bool
  pub test_irq : Bool

-- The driver with one device: whether it holds each resource, the fields of `struct qedu_device`,
-- the module parameters `use_msi` and `dma_mask`, and the faults so far. `memory` is the structure
-- itself, and `drvdata` and `qedu_dev` the two global pointers to it and to its device.
pub record Driver : Type 0 where
  pub memory : Bool
  pub locked : Bool
  pub enabled : Bool
  pub region : Bool
  pub mapped : Bool
  pub vectors : Bool
  pub irq : Bool
  pub files : Files
  pub drvdata : Bool
  pub qedu_dev : Bool
  pub device : QeduDevice
  pub id : ℕ
  pub irq_nr : ℕ
  pub edu_use_msi : Bool
  pub use_msi : Bool
  pub dma_mask : ℕ
  pub faults : List Fault

abbrev pub fault : Fault → Driver → Driver
fault f d = record d { faults = f ∷ d.faults }

abbrev pub lock : Driver → Driver
lock d = record d { locked = true }

abbrev pub unlock : Driver → Driver
unlock d = if d.locked then record d { locked = false } else fault not_locked d

abbrev pub free_irq : Driver → Driver
free_irq d = if d.irq then record d { irq = false } else fault irq_not_requested d

abbrev pub free_vectors : Driver → Driver
free_vectors d = if d.vectors then record d { vectors = false } else fault no_vectors d

abbrev pub iounmap : Driver → Driver
iounmap d = if d.mapped then record d { mapped = false } else fault not_mapped d

abbrev pub disable_device : Driver → Driver
disable_device d = if d.enabled then record d { enabled = false } else fault not_enabled d

-- `pci_release_regions` releases whatever is held.
abbrev pub release_regions : Driver → Driver
release_regions d = record d { region = false }

abbrev pub set_shutdown : Driver → Driver
set_shutdown d = record d {
  device = record d.device { state = record d.device.state { shutdown = true } };
}

abbrev pub is_pending : Option ℕ → Bool
is_pending none = false
is_pending (some t) = true

-- `kfree` of the structure, in which the timer is.
abbrev pub kfree : Driver → Driver
kfree d =
    let d' = if is_pending d.device.timer then fault timer_pending d else d in
    record d' { memory = false }

-- While the lock is released, other code may change the device.
abbrev pub meanwhile : (QeduDevice → QeduDevice) → Driver → Driver
meanwhile others d = record d { device = others d.device }

-- Lines 42 to 48.
unfoldable pub stop_timer : (QeduDevice → QeduDevice) → Driver → Driver
stop_timer others d =
    let d' = meanwhile others (unlock (set_shutdown d)) in
    lock (record d' { device = record d'.device { timer = none } })

-- Lines 54 to 59.
unfoldable pub wait_for_test : (QeduDevice → QeduDevice) → Driver → Driver
wait_for_test others d = if d.device.state.irq_wait then lock (meanwhile others (unlock d)) else d

-- Lines 61 to 71.
unfoldable pub release_all : Driver → Driver
release_all d =
    let d' = free_irq d in
    let d'' = if d'.edu_use_msi then free_vectors d' else d' in
    release_regions (disable_device (iounmap d''))

-- `__qedu_remove`.
unfoldable pub remove_locked : (QeduDevice → QeduDevice) → Driver → Driver
remove_locked others d = release_all (wait_for_test others (stop_timer others d))

abbrev pub no_files : Files
no_files = record { version = false; inverse = false; test_irq = false }

-- `qedu_sysfs_remove_entries`.
abbrev pub qedu_sysfs_remove_entries : Driver → Driver
qedu_sysfs_remove_entries d = record d { files = no_files }

unfoldable pub qedu_remove : (QeduDevice → QeduDevice) → Driver → Driver
unfolding remove_locked
qedu_remove others d =
    if not d.drvdata
    then d
    else if not d.memory
    then fault use_after_free d
    else kfree (unlock (remove_locked others (lock (qedu_sysfs_remove_entries d))))
