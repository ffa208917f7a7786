-- ===== src/Ioctl/Handler.antt =====
-- `scull_ioctl` of scull/ioctl.c, with the command numbers of scull/scull.h. The fields of a command
-- are kept apart, which the macros of the kernel pack into an `unsigned int`.
use ldd3_workshop.Prelude.{
  ℕ, ◌+◌, ◌-◌, ◌%◌, ◌^◌, Bool, true, false, not, ◌&&◌, Option, none, some, ltb, ◌==◌, if◌then◌else◌,
}
use ldd3_workshop.Kernel.{Bytes, Ret, ok, err, efault, eperm, enotty}
use ldd3_workshop.Scull.Device.{Params}

-- The direction of a command: `_IO`, `_IOW`, `_IOR` and `_IOWR`.
pub data Direction : Type 0 where
  io iow ior iowr : Direction

-- What `_IOC_TYPE`, `_IOC_NR` and `_IOC_SIZE` take out of a command, and its direction.
pub record Cmd : Type 0 where
  pub direction : Direction
  pub magic : ℕ
  pub nr : ℕ
  pub size : ℕ

-- The checks and copies of the kernel: `access_ok`, and `__get_user` and `__put_user` on an `int`,
-- which stands as its 32 bits. A failed `__get_user` gives no value; `__put_user` gives whether it
-- went through, and the new user memory.
pub record UserAccess : Type 0 where
  pub access_ok : ℕ → ℕ → Bool
  pub get_user : Bytes → ℕ → Option ℕ
  pub put_user : Bytes → ℕ → ℕ → Bool × Bytes

-- `'k'`.
abbrev pub scull_ioc_magic : ℕ
scull_ioc_magic = 107

abbrev pub scull_ioc_maxnr : ℕ
scull_ioc_maxnr = 14

abbrev pub sizeof_int : ℕ
sizeof_int = 4

-- `SCULL_QUANTUM` and `SCULL_QSET`.
abbrev pub default_params : Params
default_params = record { scull_quantum = 4000; scull_qset = 1000 }

-- The cases of the `switch`.
pub data Case : Type 0 where
  iocreset iocsquantum ioctquantum iocgquantum iocqquantum iocxquantum iochquantum : Case
  p_ioctsize p_iocqsize other : Case

abbrev same_direction : Direction → Direction → Bool
same_direction io io = true
same_direction iow iow = true
same_direction ior ior = true
same_direction iowr iowr = true
same_direction _ _ = false

-- `cmd` is the command of this direction, number and size.
abbrev is_cmd : Cmd → Direction → ℕ → ℕ → Bool
is_cmd cmd d nr size =
    same_direction cmd.direction d
    && ((cmd.magic == scull_ioc_magic) && ((cmd.nr == nr) && (cmd.size == size)))

unfoldable pub case_of : Cmd → Case
case_of cmd =
    if is_cmd cmd io 0 0
    then iocreset
    else if is_cmd cmd iow 1 sizeof_int
    then iocsquantum
    else if is_cmd cmd io 3 0
    then ioctquantum
    else if is_cmd cmd ior 5 sizeof_int
    then iocgquantum
    else if is_cmd cmd io 7 0
    then iocqquantum
    else if is_cmd cmd iowr 9 sizeof_int
    then iocxquantum
    else if is_cmd cmd io 11 0
    then iochquantum
    else if is_cmd cmd io 13 0
    then p_ioctsize
    else if is_cmd cmd io 14 0
    then p_iocqsize
    else other

-- The variables that the commands read and set, and user memory.
pub record Globals : Type 0 where
  pub params : Params
  pub scull_p_len : ℕ
  pub user : Bytes

-- An `int` of 32 bits, as an `unsigned long` or a `long` of 64 bits.
abbrev pub extend : ℕ → ℕ
extend v = if ltb v (2 ^ 31) then v else v + (2 ^ 64 - 2 ^ 32)

-- An `unsigned long` as an `int`.
abbrev pub to_int : ℕ → ℕ
to_int v = v % 2 ^ 32

abbrev pub with_quantum : ℕ → Globals → Globals
with_quantum v g = record g { params = record g.params { scull_quantum = v } }

module _ (u : UserAccess) where
  -- `ret = __get_user(scull_quantum, (int __user *)arg)`: a fault sets the variable to 0.
  unfoldable pub get_quantum : ℕ → Globals → Bool × Globals
  get_quantum arg g = elim (u.get_user g.user arg) [
    | none ↦ (false, with_quantum 0 g)
    | some v ↦ (true, with_quantum (extend v) g)
  ]

  -- `ret = __put_user(v, (int __user *)arg)`.
  unfoldable pub put_int : ℕ → ℕ → Globals → Bool × Globals
  put_int v arg g =
      let (fine, user') = u.put_user g.user arg (to_int v) in (fine, record g { user = user' })

  -- `return (ret)`.
  abbrev pub ended : Bool × Globals → Ret × Globals
  ended (fine, g) = (if fine then ok 0 else err efault, g)

  -- Lines 32 to 85.
  unfoldable pub run_case : Bool → Case → ℕ → Globals → Ret × Globals
  unfolding get_quantum put_int
  run_case capable iocreset arg g = (ok 0, record g { params = default_params })
  run_case capable iocsquantum arg g =
      if not capable then (err eperm, g) else ended (get_quantum arg g)
  run_case capable ioctquantum arg g =
      if not capable then (err eperm, g) else (ok 0, with_quantum arg g)
  run_case capable iocgquantum arg g = ended (put_int g.params.scull_quantum arg g)
  run_case capable iocqquantum arg g = (ok g.params.scull_quantum, g)
  run_case capable iocxquantum arg g =
      if not capable
      then (err eperm, g)
      else (let tmp = to_int g.params.scull_quantum in
          let (fine, g') = get_quantum arg g in
          if fine then ended (put_int tmp arg g') else (err efault, g'))
  run_case capable iochquantum arg g =
      if not capable
      then (err eperm, g)
      else (ok (extend (to_int g.params.scull_quantum)), with_quantum arg g)
  run_case capable p_ioctsize arg g = (ok 0, record g { scull_p_len = arg })
  run_case capable p_iocqsize arg g = (ok g.scull_p_len, g)
  run_case capable other arg g = (err enotty, g)

  unfoldable pub scull_ioctl : Bool → Cmd → ℕ → Globals → Ret × Globals
  scull_ioctl capable cmd arg g =
      if not (cmd.magic == scull_ioc_magic)
      then (err enotty, g)
      else if ltb scull_ioc_maxnr cmd.nr
      then (err enotty, g)
      else if not (u.access_ok arg cmd.size)
      then (err efault, g)
      else run_case capable (case_of cmd) arg g
