-- ===== src/Edu/Probe.antt =====
-- `qedu_probe` of edu/init.c, with the creation of the sysfs files of edu/sysfs.c: what the driver
-- takes from the kernel.
use ldd3_workshop.Prelude.{
  ℕ, ◌*◌, ◌%◌, ◌^◌, Bool, true, false, not, Option, none, some, [], ◌==◌, if◌then◌else◌,
}
use ldd3_workshop.Kernel.{Errno, Ret, ok, err, enomem, enodev}
use ldd3_workshop.Edu.State.{QeduDevice}
use ldd3_workshop.Edu.Release.{
  Files, Driver, unlock, kfree, iounmap, disable_device, release_regions, remove_locked,
}

-- What the kernel answers to the calls of the probe: `none` is success. `irq_line` is `dev->irq`,
-- and `id_reg` what the identification register holds.
pub record Pci : Type 0 where
  pub kzalloc : Bool
  pub enable_device : Option Errno
  pub request_region : Option Errno
  pub iomap : Bool
  pub set_dma_mask : ℕ → Option Errno
  pub set_consistent_dma_mask : ℕ → Option Errno
  pub alloc_irq_vectors : Option Errno
  pub irq_vector : Ret
  pub request_threaded_irq : Option Errno
  pub irq_line : ℕ
  pub id_reg : ℕ
  pub create_version : Option Errno
  pub create_inverse : Option Errno
  pub create_test_irq : Option Errno

-- QEDU_DEFAULT_DMA_MASK.
abbrev pub qedu_default_dma_mask : ℕ
qedu_default_dma_mask = 28

-- QEDU_IS_ID: the lower 20 bits are 0xed.
abbrev pub qedu_is_id : ℕ → Bool
qedu_is_id id = id % 2 ^ 20 == 237

-- The labels at the end of `qedu_sysfs_create_entries`.
abbrev pub fail_inverse : Errno → Files → Option Errno × Files
fail_inverse e f = (some e, record f { version = false })

abbrev pub fail_test_irq : Errno → Files → Option Errno × Files
fail_test_irq e f = fail_inverse e (record f { inverse = false })

-- `qedu_sysfs_create_entries`: the error, and the files that are there then.
unfoldable pub qedu_sysfs_create_entries : Pci → Files → Option Errno × Files
qedu_sysfs_create_entries p f =
    let f' = record f { version = true } in
    let f'' = record f' { inverse = true } in
    elim p.create_version [
      | some e ↦ (some e, f)
      | none ↦ elim p.create_inverse [
        | some e ↦ fail_inverse e f'
        | none ↦ elim p.create_test_irq [
          | some e ↦ fail_test_irq e f''
          | none ↦ (none, record f'' { test_irq = true })
        ]
      ]
    ]

-- The labels at the end of `qedu_probe`, from the last one up.
abbrev pub end_probe : Ret → Driver → Ret × Driver
end_probe ret d = (ret, record (kfree (unlock d)) { qedu_dev = false })

abbrev pub fail_request_region : Ret → Driver → Ret × Driver
fail_request_region ret d = end_probe ret (disable_device d)

abbrev pub fail_iomap : Ret → Driver → Ret × Driver
fail_iomap ret d = end_probe ret (release_regions (disable_device d))

abbrev pub fail_irq : Ret → Driver → Ret × Driver
fail_irq ret d = fail_iomap ret (iounmap d)

module _ (others : QeduDevice → QeduDevice) (p : Pci) where
  unfoldable pub fail : Ret → Driver → Ret × Driver
  fail ret d = end_probe ret (remove_locked others d)

  -- Lines 174 to 190: `ret` is 0 from the call before.
  unfoldable pub check_id : Driver → Ret × Driver
  check_id d =
      let d' = record d { id = p.id_reg } in
      if not (qedu_is_id p.id_reg)
      then fail (ok 0) d'
      else (let (bad, files) = qedu_sysfs_create_entries p d.files in
          let d'' = record d' { files = files } in
          elim bad [
            | some e ↦ fail (err e) d''
            | none ↦ (ok 0, unlock (record d'' { edu_use_msi = d''.use_msi }))
          ])

  -- Lines 167 to 172.
  unfoldable pub request_irq : Driver → Ret × Driver
  request_irq d = elim p.request_threaded_irq [
    | some e ↦ fail_irq (err e) d
    | none ↦ check_id (record d { irq = true })
  ]

  -- Lines 150 to 165.
  unfoldable pub choose_irq : Driver → Ret × Driver
  choose_irq d =
      if d.use_msi
      then elim p.alloc_irq_vectors [
        | some e ↦ request_irq (record d { use_msi = false; irq_nr = p.irq_line })
        | none ↦ elim p.irq_vector [
          | err e ↦ fail_irq (err e) (record d { vectors = true })
          | ok n ↦ request_irq (record d { vectors = true; irq_nr = n })
        ]
      ]
      else request_irq (record d { irq_nr = p.irq_line })

  -- Lines 140 to 147.
  unfoldable pub set_consistent : Driver → Ret × Driver
  set_consistent d = elim (p.set_consistent_dma_mask d.dma_mask) [
    | some e ↦ fail (err e) d
    | none ↦ choose_irq (record d { drvdata = true })
  ]

  -- Lines 128 to 138: a refused mask is replaced, but for the default one, which is passed over.
  unfoldable pub set_masks : Driver → Ret × Driver
  set_masks d = elim (p.set_dma_mask d.dma_mask) [
    | none ↦ set_consistent d
    | some _ ↦
        if d.dma_mask == qedu_default_dma_mask
        then set_consistent d
        else (let d' = record d { dma_mask = qedu_default_dma_mask } in
            elim (p.set_dma_mask qedu_default_dma_mask) [
              | some e ↦ fail (err e) d'
              | none ↦ set_consistent d'
            ])
  ]

  -- Lines 109 to 126.
  unfoldable pub enable : Driver → Ret × Driver
  enable d = elim p.enable_device [
    | some e ↦ end_probe (err e) d
    | none ↦ elim p.request_region [
      | some e ↦ fail_request_region (err e) (record d { enabled = true })
      | none ↦
          if not p.iomap
          then fail_iomap (err enodev) (record d { enabled = true; region = true })
          else set_masks (record d { enabled = true; region = true; mapped = true })
    ]
  ]

-- The structure after `kzalloc`, with its timeout, of 32 bits.
abbrev pub zeroed_device : ℕ → QeduDevice
zeroed_device timeout = record {
  state = record { irq_wait = false; irq_ok = false; irq_timedout = false; shutdown = false };
  timeout = timeout;
  timer = none;
  writes = [];
  wakes = 0;
}

-- Lines 98 to 108. `timeout` is the module parameter, and `hz` the constant HZ.
abbrev pub start : ℕ → ℕ → Driver → Driver
start timeout hz d = record d {
  memory = true;
  locked = true;
  qedu_dev = true;
  device = zeroed_device (timeout * hz % 2 ^ 32);
  id = 0;
  irq_nr = 0;
  edu_use_msi = false;
}

unfoldable pub qedu_probe : (QeduDevice → QeduDevice) → Pci → ℕ → ℕ → Driver → Ret × Driver
qedu_probe others p timeout hz d =
    if not p.kzalloc then (err enomem, d) else enable others p (start timeout hz d)
