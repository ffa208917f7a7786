-- ===== src/Qus/Lifecycle.antt =====
-- What a probe of the USB storage driver (qus/qus.c) takes, and that it and `qus_disconnect` give it
-- all back.
use ldd3_workshop.Prelude.{
  ◌≡◌, ◌⊎◌, inl, inr, refl, Bool, true, false, [], arith, Bool-cases, Option-cases,
}
use ldd3_workshop.Kernel.{Errno, Ret, ok, err, enomem}
use ldd3_workshop.Qus.Storage.{
  Usb, Storage, error, fresh, qus_del, kref_put, test_control_endpoint, register, allocate,
  qus_probe, qus_disconnect,
}

-- Nothing is held, and nothing went wrong.
pub record IsFree (q : Storage) : Type 0 where
  pub no_memory : q.memory ≡ false
  pub no_dev : q.dev ≡ false
  pub no_intf : q.intf ≡ false
  pub no_urb : q.urb ≡ false
  pub no_buf : q.buf ≡ false
  pub no_intfdata : q.intfdata ≡ false
  pub unregistered : q.registered ≡ false
  pub no_faults : q.faults ≡ []

-- All is held, by one reference.
pub record IsBound (u : Usb) (q : Storage) : Type 0 where
  pub memory : q.memory ≡ true
  pub dev : q.dev ≡ true
  pub intf : q.intf ≡ true
  pub urb : q.urb ≡ true
  pub buf : q.buf ≡ true
  pub buf_len : q.buf_len ≡ u.max_packet
  pub bulk_in : q.bulk_in_endpoint ≡ u.bulk_in
  pub bulk_out : q.bulk_out_endpoint ≡ u.bulk_out
  pub one_ref : q.kref ≡ 1
  pub intfdata : q.intfdata ≡ true
  pub registered : q.registered ≡ true
  pub no_faults : q.faults ≡ []

abbrev pub is_error : Ret → Bool
is_error (ok _) = false
is_error (err _) = true

abbrev pub Probed : Usb → Ret × Storage → Type 0
Probed u r = ((r.0 ≡ ok 0) × IsBound u r.1) ⊎ ((is_error r.0 ≡ true) × IsFree r.1)

by_eq : (u : Usb) {r r' : Ret × Storage} → Probed u r' → r ≡ r' → Probed u r
by_eq u t e = rw e t

-- The structure with what was found of the endpoints.
abbrev found : Usb → Storage → Storage
found u q = record (fresh q) { bulk_in_endpoint = u.bulk_in; buf_len = u.max_packet }

error-Probed :
    (u : Usb) (e : Errno) (q : Storage)
    → q.kref ≡ 1
    → q.intfdata ≡ false
    → q.registered ≡ false
    → q.faults ≡ []
    → Probed u (error e q)
unfolding kref_put qus_del
error-Probed u e q one free unregistered clean = inr (refl, ground arith)

register-Probed :
    (u : Usb) (q : Storage)
    → IsBound u (record q { intfdata = true; registered = true })
    → q.registered ≡ false
    → Probed u (register u q)
unfolding register test_control_endpoint
register-Probed u q b un = elim (Option-cases u.register_dev) [
  | inr (e, bad) ↦
      (let same : register u q ≡ error e (record q { intfdata = false }) = ground arith in
        rw same (error-Probed u e (record q { intfdata = false }) b.one_ref refl un b.no_faults))
  | inl fine ↦ inl (ground arith, ground arith)
]

allocate-Probed : (u : Usb) (q : Storage) → IsFree q → Probed u (allocate u (fresh q))
unfolding allocate
allocate-Probed u q free = elim (Option-cases u.find_common_endpoints) [
  | inr (e, bad) ↦
      by_eq u (error-Probed u e (fresh q) refl free.no_intfdata free.unregistered free.no_faults)
        (ground arith)
  | inl fine ↦ elim (Bool-cases u.kmalloc) [
    | inr short ↦
        by_eq u
          (error-Probed u enomem (found u q) refl free.no_intfdata free.unregistered free.no_faults)
          (ground arith)
    | inl fine' ↦ elim (Bool-cases u.alloc_urb) [
      | inr short ↦
          by_eq u
            (error-Probed u enomem (record (found u q) { buf = true }) refl free.no_intfdata
              free.unregistered free.no_faults)
            (ground arith)
      | inl fine'' ↦
          (let q' = record (found u q) { buf = true; urb = true; bulk_out_endpoint = u.bulk_out } in
            by_eq u (register-Probed u q' (ground arith) free.unregistered) (ground arith))
    ]
  ]
]

-- A probe of a driver that holds nothing either returns 0 and holds all, by one reference, with the
-- endpoints found and a buffer of one packet, or returns an error and holds nothing: whatever was
-- taken before the failure is given back.
pub qus_probe_lem : (u : Usb) (q : Storage) → IsFree q → Probed u (qus_probe u q)
unfolding qus_probe
qus_probe_lem u q free = elim (Bool-cases u.kzalloc) [
  | inr short ↦ inr (ground arith, ground arith)
  | inl fine ↦ by_eq u (allocate-Probed u q free) (ground arith)
]

-- Whatever the USB core answers, a disconnect after a successful probe by a driver that held nothing
-- gives back all that the probe took, with no fault.
pub disconnect-probe :
    (u : Usb) (q : Storage)
    → IsFree q
    → (qus_probe u q).0 ≡ ok 0
    → IsFree (qus_disconnect (qus_probe u q).1)
unfolding qus_disconnect kref_put qus_del
disconnect-probe u q free fine = ground (arith, qus_probe_lem u q free)
