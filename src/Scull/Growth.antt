-- ===== src/Scull/Growth.antt =====
-- A quantum size that grows while the scull module is loaded: scull/main.c with scull/ioctl.c.
use ldd3_workshop.Prelude.{
  ℕ, ◌+◌, ◌*◌, ◌^◌, ◌<◌, ◌≡◌, refl, ap, ◌∙◌, true, false, none, some, [], arith, inl, inr,
}
use ldd3_workshop.Kernel.{Bytes, ok, Kernel, IsLinux}
use ldd3_workshop.Scull.Device.{ScullDev, Follow, Params, trim, scull_open}
use ldd3_workshop.Scull.Io.{Session, position, scull_write}
use ldd3_workshop.Scull.Position.{IsSized, position_unique, position_same_sizes}
use ldd3_workshop.Scull.Content.{byte_at, IsWellFormed}
use ldd3_workshop.Scull.Success.{IsKind, scull_write_total}
use ldd3_workshop.Scull.Setup.{Module, Answers, scull_init_module}
use ldd3_workshop.Scull.Loading.{IsUnloaded, scull_init_module_lem}
use ldd3_workshop.Ioctl.Handler.{
  UserAccess, Globals, io, scull_ioctl, case_of, run_case, with_quantum,
}
use ldd3_workshop.Ioctl.Laws.{scull_cmd}

-- The device after an open for writing only.
abbrev pub emptied_by : Params → ScullDev → ScullDev
emptied_by p dev = record {
  len = 0;
  quantum_len = p.scull_quantum;
  qset_len = p.scull_qset;
  qset = [];
}

emptied_by-IsWellFormed : (p : Params) (dev : ScullDev) → IsWellFormed (emptied_by p dev)
emptied_by-IsWellFormed p dev i a e = let clash : none ≡ some a = e in cc

tell_quantum :
    (u : UserAccess) (q : ℕ) (g : Globals)
    → u.access_ok q 0 ≡ true
    → scull_ioctl u true (scull_cmd io 3 0) q g ≡ (ok 0, with_quantum q g)
unfolding scull_ioctl case_of run_case
tell_quantum u q g fine = ground arith

-- Where the module was loaded with success, its cache has objects of the quantum size of that time.
-- After SCULL_IOCTQUANTUM raises the size and a device is opened for writing only, a write at the
-- old size goes through, and all its bytes stand behind the end of the object that they are written
-- to.
pub grown_quantum_overflows :
    (k : Kernel) (a : Answers) (u : UserAccess) (nr_devs p_nr_devs : ℕ) (m : Module) (g : Globals)
    (dev : ScullDev) (user : Bytes) (q r buf count : ℕ)
    → IsLinux k
    → IsKind k
    → IsUnloaded m
    → (scull_init_module a g.params nr_devs p_nr_devs m).0 ≡ ok 0
    → u.access_ok q 0 ≡ true
    → g.params.scull_quantum < q
    → 0 < g.params.scull_qset
    → q * g.params.scull_qset < 2 ^ 63
    → 0 < count
    → g.params.scull_quantum + count < 2 ^ 63
    → let old = g.params.scull_quantum in
      let told = scull_ioctl u true (scull_cmd io 3 0) q g in
      let opened = scull_open told.1.params false 1 dev in
      let s : Session = record { dev = opened.2; requests = r; user = user; f_pos = old } in
      (told.0 ≡ ok 0)
      × (opened.0 ≡ ok 0)
      × ((scull_init_module a g.params nr_devs p_nr_devs m).1.kmc ≡ some old)
      × (n : ℕ) × (s' : Session) × (scull_write k false s buf count ≡ some (ok n, s'))
      × (0 < n)
      × ((position s'.dev old).offset_p ≡ old)
      × ((i : ℕ) → i < n → byte_at s'.dev (old + i) ≡ some (user (buf + i)))
unfolding scull_open trim
grown_quantum_overflows k a u nr_devs p_nr_devs m g dev user q r buf count linux kind free fine
      access more sets fits some_count bound =
    let old = g.params.scull_quantum in
    let p = record g.params { scull_quantum = q } in
    let d = emptied_by p dev in
    let s : Session = record { dev = d; requests = r; user = user; f_pos = old } in
    let sized : IsSized d = record { quantum_pos = omega arith; qset_pos = sets; fits = fits } in
    let at : position d old ≡ record { qset_p = 0; quantum_p = 0; offset_p = old } =
      position_unique d sized old 0 0 old sets more (omega arith) in
    let (n, s', e, w) =
      scull_write_total k s buf count linux kind sized (emptied_by-IsWellFormed p dev) bound in
    rw (tell_quantum u q g access) (
      refl,
      refl,
      elim (scull_init_module_lem a g.params nr_devs p_nr_devs m free).0 [
        | inr (failed, _) ↦ ground arith
        | inl (_, loaded) ↦ loaded.cache
      ],
      n,
      s',
      e,
      omega (arith, w.taken, ap (λ (f : Follow). f.offset_p) at),
      ap (λ (f : Follow). f.offset_p)
          (position_same_sizes d s'.dev w.same_quantum w.same_qset old ∙ at),
      w.written,
    )
