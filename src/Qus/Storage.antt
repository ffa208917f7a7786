-- ===== src/Qus/Storage.antt =====
-- `struct qemu_usb_storage` of qus/qus.h, and `qus_probe`, `qus_disconnect` and `qus_del` of
-- qus/qus.c. What the USB core answers is an argument.
use ldd3_workshop.Prelude.{
  ℕ, ◌-◌, Bool, true, false, not, Option, none, some, List, ◌∷◌, ◌==◌, if◌then◌else◌,
}
use ldd3_workshop.Kernel.{Errno, Ret, ok, err, enomem}

-- The answers to the calls of a probe: `none` is success. An endpoint stands as its address, and
-- `max_packet` is the packet size of the bulk-in endpoint. `control_msg` is the result of the
-- request for the highest unit, and `lun` the byte that a request that went through has read.
pub record Usb : Type 0 where
  pub kzalloc : Bool
  pub find_common_endpoints : Option Errno
  pub bulk_in : ℕ
  pub bulk_out : ℕ
  pub max_packet : ℕ
  pub kmalloc : Bool
  pub alloc_urb : Bool
  pub register_dev : Option Errno
  pub control_msg : Ret
  pub lun : ℕ

-- A release of what is not held, or a use of a NULL pointer or of freed memory.
pub data Fault : Type 0 where
  over_put no_device no_urb not_registered : Fault

-- The driver with one interface: the structure (`memory`), the references to the device and to the
-- interface, the URB and the buffer that its pointers hold, its other fields, the data pointer of
-- the interface, whether the device is registered, and the faults so far.
pub record Storage : Type 0 where
  pub memory : Bool
  pub dev : Bool
  pub intf : Bool
  pub urb : Bool
  pub buf : Bool
  pub buf_len : ℕ
  pub bulk_in_endpoint : ℕ
  pub bulk_out_endpoint : ℕ
  pub kref : ℕ
  pub max_lun : ℕ
  pub intfdata : Bool
  pub registered : Bool
  pub faults : List Fault

abbrev pub fault : Fault → Storage → Storage
fault f q = record q { faults = f ∷ q.faults }

-- `qus_del`: the releases of a NULL URB and of a NULL buffer do nothing.
unfoldable pub qus_del : Storage → Storage
qus_del q = record q { urb = false; intf = false; dev = false; buf = false; memory = false }

-- `kref_put`.
unfoldable pub kref_put : Storage → Storage
unfolding qus_del
kref_put q =
    let q' = record q { kref = q.kref - 1 } in
    if q.kref == 0 then fault over_put q else if q.kref == 1 then qus_del q' else q'

-- `__test_control_endpoint`.
unfoldable pub test_control_endpoint : Usb → Storage → Ret × Storage
test_control_endpoint u q = elim u.control_msg [
  | err e ↦ (err e, q)
  | ok n ↦ (ok n, record q { max_lun = u.lun })
]

-- The label `error`.
abbrev pub error : Errno → Storage → Ret × Storage
error e q = (err e, kref_put q)

-- Lines 107 to 120.
unfoldable pub register : Usb → Storage → Ret × Storage
register u q = elim u.register_dev [
  | some e ↦ error e (record q { intfdata = false })
  | none ↦ (ok 0, (test_control_endpoint u (record q { intfdata = true; registered = true })).1)
]

-- Lines 84 to 105.
unfoldable pub allocate : Usb → Storage → Ret × Storage
unfolding register
allocate u q =
    let q' = record q { bulk_in_endpoint = u.bulk_in; buf_len = u.max_packet } in
    let q'' = record q' { buf = true; urb = true; bulk_out_endpoint = u.bulk_out } in
    elim u.find_common_endpoints [
      | some e ↦ error e q
      | none ↦
          if not u.kmalloc
          then error enomem q'
          else if not u.alloc_urb
          then error enomem (record q' { buf = true })
          else register u q''
    ]

-- The structure after lines 74 to 81.
abbrev pub fresh : Storage → Storage
fresh q = record q {
  memory = true;
  dev = true;
  intf = true;
  urb = false;
  buf = false;
  buf_len = 0;
  bulk_in_endpoint = 0;
  bulk_out_endpoint = 0;
  kref = 1;
  max_lun = 0;
}

unfoldable pub qus_probe : Usb → Storage → Ret × Storage
qus_probe u q = if not u.kzalloc then (err enomem, q) else allocate u (fresh q)

-- `usb_deregister_dev`.
abbrev pub deregister : Storage → Storage
deregister q = if q.registered then record q { registered = false } else fault not_registered q

-- `usb_kill_urb`.
abbrev pub kill_urb : Storage → Storage
kill_urb q = if q.urb then q else fault no_urb q

unfoldable pub qus_disconnect : Storage → Storage
qus_disconnect q =
    let q' = deregister (record q { intfdata = false }) in
    if not q.intfdata then fault no_device q' else kref_put (kill_urb q')
