-- ===== src/Pipe/Setup.antt =====
-- `scull_p_init` and `scull_p_cleanup` of scull/pipe.c.
use ldd3_workshop.Prelude.{
  ℕ, zero, suc, ◌+◌, Bool, true, false, not, Option, none, some, List, [], ◌∷◌, if◌then◌else◌,
}
use ldd3_workshop.Kernel.{Errno}
use ldd3_workshop.Pipe.Device.{ScullPipe}

-- A character device of the kernel: its memory zeroed, set up by `cdev_init`, or added as well.
pub data Cdev : Type 0 where
  zeroed ready added : Cdev

pub record PipeSlot : Type 0 where
  pub pipe : ScullPipe
  pub cdev : Cdev

-- The variables `scull_p_dev` and `scull_p_devices`, whether the device numbers are registered, and
-- how many buffers were given back.
pub record PipeModule : Type 0 where
  pub scull_p_dev : ℕ
  pub devices : Option (List PipeSlot)
  pub region : Bool
  pub buffers_freed : ℕ

-- What the kernel answers: `none` and `true` are success. `cdev_add` is asked for each number.
pub record PipeAnswers : Type 0 where
  pub register_region : Option Errno
  pub kmalloc_array : Bool
  pub cdev_add : ℕ → Option Errno

-- A device after `memset` and line 339.
abbrev pub zeroed_pipe : ℕ → ScullPipe
zeroed_pipe i = record {
  idx = i;
  buf = none;
  end = 0;
  buf_len = 0;
  rp = 0;
  wp = 0;
  readers = 0;
  writers = 0;
  async_q = [];
}

-- `scull_p_setup_cdev`: a failure of `cdev_add` is only printed.
abbrev pub scull_p_setup_cdev : PipeAnswers → ℕ → ScullPipe → PipeSlot
scull_p_setup_cdev a devno p = record {
  pipe = p;
  cdev = elim (a.cdev_add devno) [ none ↦ added | some _ ↦ ready ];
}

-- Lines 336 to 346, from the index `i` on, with `n` devices to go.
unfoldable pub setup_pipes : PipeAnswers → ℕ → ℕ → ℕ → List PipeSlot
setup_pipes a dev zero i = []
setup_pipes a dev (suc n) i =
    scull_p_setup_cdev a (dev + i) (zeroed_pipe i) ∷ setup_pipes a dev n (i + 1)

-- The result is the number of device numbers in use.
unfoldable pub scull_p_init : PipeAnswers → ℕ → ℕ → PipeModule → ℕ × PipeModule
scull_p_init a scull_p_nr_devs firstdev m = elim a.register_region [
  | some _ ↦ (0, m)
  | none ↦
      if not a.kmalloc_array
      then (0, record m { scull_p_dev = firstdev; devices = none; region = false })
      else (
        scull_p_nr_devs,
        record m {
          scull_p_dev = firstdev;
          devices = some (setup_pipes a firstdev scull_p_nr_devs 0);
          region = true;
        },
      )
]

-- The buffers of the devices: `kfree` of a NULL pointer gives nothing back.
unfoldable pub buffers : List PipeSlot → ℕ
buffers [] = 0
buffers (s ∷ ss) = elim s.pipe.buf [ none ↦ buffers ss | some _ ↦ buffers ss + 1 ]

unfoldable pub scull_p_cleanup : PipeModule → PipeModule
scull_p_cleanup m = elim m.devices [
  | none ↦ m
  | some ss ↦ record m {
    devices = none;
    region = false;
    buffers_freed = m.buffers_freed + buffers ss;
  }
]
