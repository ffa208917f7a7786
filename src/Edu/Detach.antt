-- ===== src/Edu/Detach.antt =====
-- What a removal of the edu driver (edu/init.c) gives back, and where it uses what a probe has freed.
use ldd3_workshop.Prelude.{ℕ, ◌≡◌, refl, sym, ◌∙◌, true, false, none, [], ◌∷◌, arith}
use mathlib.Core.Path.{subst}
use ldd3_workshop.Kernel.{ok}
use ldd3_workshop.Edu.State.{QeduDevice}
use ldd3_workshop.Edu.Release.{
  use_after_free, Driver, stop_timer, wait_for_test, release_all, remove_locked, qedu_remove,
  no_files, lock, unlock, kfree, qedu_sysfs_remove_entries,
}
use ldd3_workshop.Edu.Probe.{
  Pci, qedu_is_id, fail, check_id, request_irq, choose_irq, set_consistent, set_masks, enable,
  start, qedu_probe,
}
use ldd3_workshop.Edu.Stopped.{LeavesStopped, kfree-unlock, kfree-keeps, remove_locked-IsStopped}
use ldd3_workshop.Edu.Attach.{IsDetached, IsAttached}

-- What stands before the release of an attached driver.
record IsHeld (d : Driver) : Type 0 where
  locked : d.locked ≡ true
  enabled : d.enabled ≡ true
  mapped : d.mapped ≡ true
  irq : d.irq ≡ true
  vectors : d.vectors ≡ d.edu_use_msi
  no_faults : d.faults ≡ []

stop_timer-IsHeld :
    (others : QeduDevice → QeduDevice) (d : Driver) → IsHeld d → IsHeld (stop_timer others d)
unfolding stop_timer
stop_timer-IsHeld others d h = ground arith

wait_for_test-IsHeld :
    (others : QeduDevice → QeduDevice) (d : Driver) → IsHeld d → IsHeld (wait_for_test others d)
unfolding wait_for_test
wait_for_test-IsHeld others d h = ground arith

-- After the release, the lock is the only thing held.
record IsReleased (d : Driver) : Type 0 where
  locked : d.locked ≡ true
  disabled : d.enabled ≡ false
  no_region : d.region ≡ false
  unmapped : d.mapped ≡ false
  no_irq : d.irq ≡ false
  no_vectors : d.vectors ≡ false
  no_faults : d.faults ≡ []

release_all-IsReleased : (d : Driver) → IsHeld d → IsReleased (release_all d)
unfolding release_all
release_all-IsReleased d h = ground arith

remove_locked-files :
    (others : QeduDevice → QeduDevice) (d : Driver) → (remove_locked others d).files ≡ d.files
unfolding remove_locked release_all wait_for_test stop_timer
remove_locked-files others d = ground arith

-- A removal of an attached driver gives back everything, the vectors and the files included. It
-- releases nothing that is not held, and frees the structure with its timer not pending, whatever
-- other code does to the device while the lock is released, as long as that code arms no timer while
-- the device is shutting down.
pub qedu_remove-IsDetached :
    (others : QeduDevice → QeduDevice) (d : Driver)
    → LeavesStopped others
    → IsAttached d
    → let d' = qedu_remove others d in
      IsDetached d' × (d'.vectors ≡ false) × (d'.faults ≡ []) × (d'.files ≡ no_files)
unfolding qedu_remove
qedu_remove-IsDetached others d leaves a =
    let d₁ = lock (qedu_sysfs_remove_entries d) in
    let held = wait_for_test-IsHeld others _ (stop_timer-IsHeld others d₁ (ground arith)) in
    let gone : IsReleased (remove_locked others d₁) =
      unfold remove_locked in release_all-IsReleased _ held in
    let same = remove_locked-files others d₁ in
    let d₂ = remove_locked others d₁ in
    let stopped = (remove_locked-IsStopped others leaves d₁).1 in
    let e : qedu_remove others d ≡ kfree (unlock d₂) = ground arith in
    subst
      (λ (x : Driver). IsDetached x × (x.vectors ≡ false) × (x.faults ≡ []) × (x.files ≡ no_files))
      (sym (e ∙ kfree-unlock d₂ gone.locked stopped))
      (
        record {
          no_memory = refl;
          unlocked = refl;
          disabled = gone.disabled;
          no_region = gone.no_region;
          unmapped = gone.unmapped;
          no_irq = gone.no_irq;
        },
        gone.no_vectors,
        gone.no_faults,
        same,
      )

-- The driver where the identification is checked, all before being granted.
abbrev at_check : Pci → ℕ → ℕ → ℕ → Driver → Driver
at_check p timeout hz n d = record (start timeout hz d) {
  enabled = true;
  region = true;
  mapped = true;
  drvdata = true;
  vectors = true;
  irq_nr = n;
  irq = true;
  id = p.id_reg;
}

remove_locked_keeps :
    (others : QeduDevice → QeduDevice) (d : Driver)
    → d.edu_use_msi ≡ false
    → ((remove_locked others d).vectors ≡ d.vectors)
      × ((remove_locked others d).drvdata ≡ d.drvdata)
unfolding remove_locked release_all wait_for_test stop_timer
remove_locked_keeps others d e = (ground arith, ground arith)

remove_freed :
    (others : QeduDevice → QeduDevice) (d : Driver)
    → d.drvdata ≡ true
    → d.memory ≡ false
    → qedu_remove others d ≡ record d { faults = use_after_free ∷ d.faults }
unfolding qedu_remove
remove_freed others d there freed = ground arith

wrong_id_fails :
    (others : QeduDevice → QeduDevice) (p : Pci) (timeout hz n : ℕ) (d : Driver)
    → d.use_msi ≡ true
    → p.kzalloc ≡ true
    → p.enable_device ≡ none
    → p.request_region ≡ none
    → p.iomap ≡ true
    → p.set_dma_mask d.dma_mask ≡ none
    → p.set_consistent_dma_mask d.dma_mask ≡ none
    → p.alloc_irq_vectors ≡ none
    → p.irq_vector ≡ ok n
    → p.request_threaded_irq ≡ none
    → qedu_is_id p.id_reg ≡ false
    → qedu_probe others p timeout hz d ≡ fail others p (ok 0) (at_check p timeout hz n d)
unfolding qedu_probe enable set_masks set_consistent choose_irq request_irq check_id
wrong_id_fails others p timeout hz n d h₁ h₂ h₃ h₄ h₅ h₆ h₇ h₈ h₉ h₁₀ h₁₁ = ground arith

-- A device with a wrong identification, with vectors asked for and all else granted: the probe
-- returns 0, but the structure is freed and the vectors stay allocated, and all that the removal that
-- follows does is to use the freed structure.
pub wrong_id_uses_freed :
    (others : QeduDevice → QeduDevice) (p : Pci) (timeout hz n : ℕ) (d : Driver)
    → d.use_msi ≡ true
    → p.kzalloc ≡ true
    → p.enable_device ≡ none
    → p.request_region ≡ none
    → p.iomap ≡ true
    → p.set_dma_mask d.dma_mask ≡ none
    → p.set_consistent_dma_mask d.dma_mask ≡ none
    → p.alloc_irq_vectors ≡ none
    → p.irq_vector ≡ ok n
    → p.request_threaded_irq ≡ none
    → qedu_is_id p.id_reg ≡ false
    → let (r, d') = qedu_probe others p timeout hz d in
      (r ≡ ok 0)
      × (d'.memory ≡ false)
      × (d'.vectors ≡ true)
      × (qedu_remove others d' ≡ record d' { faults = use_after_free ∷ d'.faults })
unfolding fail
wrong_id_uses_freed others p timeout hz n d h₁ h₂ h₃ h₄ h₅ h₆ h₇ h₈ h₉ h₁₀ h₁₁ =
    rw (wrong_id_fails others p timeout hz n d h₁ h₂ h₃ h₄ h₅ h₆ h₇ h₈ h₉ h₁₀ h₁₁) (
      let kept = remove_locked_keeps others (at_check p timeout hz n d) refl in
      let d' = remove_locked others (at_check p timeout hz n d) in
      let freed = kfree-keeps d' in
      (
        refl,
        refl,
        freed.0 ∙ kept.0,
        remove_freed others (record (kfree (unlock d')) { qedu_dev = false }) (freed.1 ∙ kept.1)
            refl,
      ))
