-- ===== src/Examples/Drivers.antt =====
-- Loading, probing and removing the drivers at concrete answers of the kernel (scull/main.c,
-- edu/init.c and qus/qus.c).
use ldd3_workshop.Prelude.{◌≡◌, refl, true, false, none, some, [], ◌∷◌}
use ldd3_workshop.Kernel.{ok}
use ldd3_workshop.Edu.State.{QeduDevice}
use ldd3_workshop.Edu.Irq.{qedu_thr_handle_irq}
use ldd3_workshop.Edu.Stopped.{handlers_leave_stopped}
use ldd3_workshop.Edu.Release.{Driver, no_files, use_after_free, qedu_remove}
use ldd3_workshop.Edu.Probe.{Pci, qedu_probe}
use ldd3_workshop.Edu.Attach.{IsDetached, IsAttached, Probed}
use ldd3_workshop.Edu.Detach.{qedu_remove-IsDetached, wrong_id_uses_freed}
use ldd3_workshop.Qus.Storage.{Usb, Storage, qus_probe}
use ldd3_workshop.Qus.Lifecycle
use ldd3_workshop.Scull.Device.{Params}
use ldd3_workshop.Scull.Setup.{Module, Answers, scull_init_module}
use ldd3_workshop.Scull.Loading.{LoadEnd, scull_init_module_lem}

abbrev idle : QeduDevice
idle = record {
  state = record { irq_wait = false; irq_ok = false; irq_timedout = false; shutdown = false };
  timeout = 500;
  timer = none;
  writes = [];
  wakes = 0;
}

-- A bus where all goes well, with a device of version 1.0.
abbrev good_pci : Pci
good_pci = record {
  kzalloc = true;
  enable_device = none;
  request_region = none;
  iomap = true;
  set_dma_mask = λ _. none;
  set_consistent_dma_mask = λ _. none;
  alloc_irq_vectors = none;
  irq_vector = ok 7;
  request_threaded_irq = none;
  irq_line = 11;
  id_reg = 16777453;
  create_version = none;
  create_inverse = none;
  create_test_irq = none;
}

abbrev detached : Driver
detached = record {
  memory = false;
  locked = false;
  enabled = false;
  region = false;
  mapped = false;
  vectors = false;
  irq = false;
  files = no_files;
  drvdata = false;
  qedu_dev = false;
  device = idle;
  id = 0;
  irq_nr = 0;
  edu_use_msi = false;
  use_msi = true;
  dma_mask = 268435455;
  faults = [];
}

abbrev attached : Driver
attached = record detached {
  memory = true;
  enabled = true;
  region = true;
  mapped = true;
  vectors = true;
  irq = true;
  files = record { version = true; inverse = true; test_irq = true };
  drvdata = true;
  qedu_dev = true;
  edu_use_msi = true;
}

-- Its timer is pending, and an interrupt is handled whenever the lock is released.
abbrev busy : Driver
busy = record attached { device = record attached.device { timer = some 900 } }

busy-IsAttached : IsAttached busy
busy-IsAttached = record {
  memory = refl;
  unlocked = refl;
  enabled = refl;
  region = refl;
  mapped = refl;
  irq = refl;
  drvdata = refl;
  pointer = refl;
  version = refl;
  inverse = refl;
  test_irq = refl;
  vectors = refl;
  no_faults = refl;
}

abbrev interrupts : QeduDevice → QeduDevice
interrupts edu = (qedu_thr_handle_irq 2 edu).1

qedu_remove-IsDetached_example :
    let d = qedu_remove interrupts busy in
    IsDetached d × (d.vectors ≡ false) × (d.faults ≡ []) × (d.files ≡ no_files)
qedu_remove-IsDetached_example =
    qedu_remove-IsDetached interrupts busy (handlers_leave_stopped 2 0 0 0 true).1 busy-IsAttached

-- The same bus, with a device that is another one.
abbrev wrong_pci : Pci
wrong_pci = record good_pci { id_reg = 0 }

wrong_id_uses_freed_example :
    let (r, d') = qedu_probe (λ e. e) wrong_pci 3 250 detached in
    (r ≡ ok 0)
    × (d'.memory ≡ false)
    × (d'.vectors ≡ true)
    × (qedu_remove (λ e. e) d' ≡ record d' { faults = use_after_free ∷ d'.faults })
wrong_id_uses_freed_example =
    wrong_id_uses_freed (λ e. e) wrong_pci 3 250 7 detached refl refl refl refl refl refl refl refl
      refl refl refl

abbrev good_usb : Usb
good_usb = record {
  kzalloc = true;
  find_common_endpoints = none;
  bulk_in = 129;
  bulk_out = 2;
  max_packet = 512;
  kmalloc = true;
  alloc_urb = true;
  register_dev = none;
  control_msg = ok 1;
  lun = 0;
}

abbrev no_storage : Storage
no_storage = record {
  memory = false;
  dev = false;
  intf = false;
  urb = false;
  buf = false;
  buf_len = 0;
  bulk_in_endpoint = 0;
  bulk_out_endpoint = 0;
  kref = 0;
  max_lun = 0;
  intfdata = false;
  registered = false;
  faults = [];
}

no_storage-IsFree : Lifecycle.IsFree no_storage
no_storage-IsFree = record {
  no_memory = refl;
  no_dev = refl;
  no_intf = refl;
  no_urb = refl;
  no_buf = refl;
  no_intfdata = refl;
  unregistered = refl;
  no_faults = refl;
}

qus_probe_lem_example : Lifecycle.Probed good_usb (qus_probe good_usb no_storage)
qus_probe_lem_example = Lifecycle.qus_probe_lem good_usb no_storage no_storage-IsFree

abbrev pub usual_params : Params
usual_params = record { scull_quantum = 4000; scull_qset = 2 }

abbrev pub unloaded : Module
unloaded = record {
  region = false;
  devices = none;
  kmc = none;
  proc = false;
  pipes = record { scull_p_dev = 0; devices = none; region = false; buffers_freed = 0 };
  freed = record { objects = []; arrays = 0; sets = 0 };
  faults = [];
}

-- The cache is refused.
abbrev pub no_cache : Answers
no_cache = record {
  register_region = none;
  kcalloc = true;
  cache_create = false;
  cdev_add = λ _. none;
  first = 0;
  pipe_first = 4;
  pipe_answers = record { register_region = none; kmalloc_array = true; cdev_add = λ _. none };
}

scull_init_module_lem_example :
    LoadEnd no_cache usual_params 4 unloaded (scull_init_module no_cache usual_params 4 4 unloaded)
scull_init_module_lem_example = scull_init_module_lem no_cache usual_params 4 4 unloaded (record {
  no_region = refl;
  no_devices = refl;
  no_cache = refl;
  no_proc = refl;
  no_pipes = refl;
})
