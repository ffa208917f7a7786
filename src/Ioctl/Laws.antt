-- ===== src/Ioctl/Laws.antt =====
-- What the callers of `scull_ioctl` (scull/ioctl.c) may rely on, and what it can break.
use ldd3_workshop.Prelude.{
  ℕ, ◌%◌, ◌^◌, ◌<◌, ◌≡◌, ◌⊎◌, inl, inr, sym, ap, ◌∙◌, Bool, true, false, some, none, arith,
  Option-cases,
}
use ldd3_workshop.Kernel.{Errno, Bytes, Ret, ok, err, efault, eperm, enotty, Kernel}
use ldd3_workshop.Scull.Device.{trim}
use ldd3_workshop.Scull.Io.{Session, scull_write}
use ldd3_workshop.Scull.Success.{zero_size_faults}
use ldd3_workshop.Ioctl.Handler.{
  Direction, io, iow, iowr, Cmd, UserAccess, Case, iocreset, iocsquantum, iocxquantum, ioctquantum,
  iocgquantum, iocqquantum, iochquantum, p_iocqsize, p_ioctsize, other, case_of, default_params,
  scull_ioc_magic, sizeof_int, Globals, extend, to_int, get_quantum, put_int, run_case, scull_ioctl,
}

-- The documented behaviour of the copies: an `int` has 32 bits, and one that was put is got back.
pub record IsUserAccess (u : UserAccess) : Type 0 where
  pub in_range : (m : Bytes) (a v : ℕ) → u.get_user m a ≡ some v → v < 2 ^ 32
  pub put_get :
      (m : Bytes) (a v : ℕ)
      → v < 2 ^ 32
      → (u.put_user m a v).0 ≡ true
      → u.get_user (u.put_user m a v).1 a ≡ some v

-- A command of the driver, with its direction, number and size.
abbrev pub scull_cmd : Direction → ℕ → ℕ → Cmd
scull_cmd d nr size = record { direction = d; magic = scull_ioc_magic; nr = nr; size = size }

run_case_unprivileged :
    (u : UserAccess) (c : Case) (arg : ℕ) (g : Globals)
    → let g' = (run_case u false c arg g).1 in
      ((g'.params ≡ g.params) ⊎ ((c ≡ iocreset) × (g'.params ≡ default_params)))
      × ((g'.scull_p_len ≡ g.scull_p_len) ⊎ ((c ≡ p_ioctsize) × (g'.scull_p_len ≡ arg)))
unfolding run_case put_int
run_case_unprivileged u iocreset arg g = ground arith
run_case_unprivileged u iocsquantum arg g = ground arith
run_case_unprivileged u ioctquantum arg g = ground arith
run_case_unprivileged u iocgquantum arg g = ground arith
run_case_unprivileged u iocqquantum arg g = ground arith
run_case_unprivileged u iocxquantum arg g = ground arith
run_case_unprivileged u iochquantum arg g = ground arith
run_case_unprivileged u p_ioctsize arg g = ground arith
run_case_unprivileged u p_iocqsize arg g = ground arith
run_case_unprivileged u other arg g = ground arith

-- A process without CAP_SYS_ADMIN can change the sizes in two ways only: by SCULL_IOCRESET, which
-- sets the quantum and the quantum set to their defaults, and by SCULL_P_IOCTSIZE, which sets the
-- size of the pipe buffers to its argument.
pub ioctl_unprivileged :
    (u : UserAccess) (cmd : Cmd) (arg : ℕ) (g : Globals)
    → let g' = (scull_ioctl u false cmd arg g).1 in
      ((g'.params ≡ g.params) ⊎ ((case_of cmd ≡ iocreset) × (g'.params ≡ default_params)))
      × ((g'.scull_p_len ≡ g.scull_p_len) ⊎ ((case_of cmd ≡ p_ioctsize) × (g'.scull_p_len ≡ arg)))
unfolding scull_ioctl
ioctl_unprivileged u cmd arg g = ground (arith, run_case_unprivileged u (case_of cmd) arg g)

run_case_errors :
    (u : UserAccess) (capable : Bool) (c : Case) (arg : ℕ) (g g' : Globals) (e : Errno)
    → run_case u capable c arg g ≡ (err e, g')
    → ((e ≡ enotty) × (g' ≡ g))
      ⊎ (((e ≡ eperm) × (capable ≡ false) × (g' ≡ g))
          ⊎ ((e ≡ efault)
              × (g'.scull_p_len ≡ g.scull_p_len)
              × (g'.params.scull_qset ≡ g.params.scull_qset)))
unfolding run_case get_quantum put_int
run_case_errors u capable iocreset arg g g' e h = ground arith
run_case_errors u capable iocsquantum arg g g' e h = ground arith
run_case_errors u capable ioctquantum arg g g' e h = ground arith
run_case_errors u capable iocgquantum arg g g' e h = ground arith
run_case_errors u capable iocqquantum arg g g' e h = ground arith
run_case_errors u capable iocxquantum arg g g' e h = ground arith
run_case_errors u capable iochquantum arg g g' e h = ground arith
run_case_errors u capable p_ioctsize arg g g' e h = ground arith
run_case_errors u capable p_iocqsize arg g g' e h = ground arith
run_case_errors u capable other arg g g' e h = ground arith

-- An error changes no size but the quantum: ENOTTY and EPERM leave everything as it was, the second
-- is for processes without CAP_SYS_ADMIN only, and EFAULT keeps the other two sizes. There are no
-- other errors.
pub ioctl_errors :
    (u : UserAccess) (capable : Bool) (cmd : Cmd) (arg : ℕ) (g g' : Globals) (e : Errno)
    → scull_ioctl u capable cmd arg g ≡ (err e, g')
    → ((e ≡ enotty) × (g' ≡ g))
      ⊎ (((e ≡ eperm) × (capable ≡ false) × (g' ≡ g))
          ⊎ ((e ≡ efault)
              × (g'.scull_p_len ≡ g.scull_p_len)
              × (g'.params.scull_qset ≡ g.params.scull_qset)))
unfolding scull_ioctl
ioctl_errors u capable cmd arg g g' e h =
    ground (arith, run_case_errors u capable (case_of cmd) arg g g' e)

-- The commands for the size of a quantum set, which have the even numbers from 2 to 12, are all
-- refused with ENOTTY, and change nothing.
pub qset_commands_refused :
    (u : UserAccess) (capable : Bool) (cmd : Cmd) (arg : ℕ) (g : Globals)
    → u.access_ok arg cmd.size ≡ true
    → 0 < cmd.nr
    → cmd.nr < 14
    → cmd.nr % 2 ≡ 0
    → scull_ioctl u capable cmd arg g ≡ (err enotty, g)
unfolding scull_ioctl case_of run_case
qset_commands_refused u capable cmd arg g fine pos small even = ground arith

-- SCULL_IOCTQUANTUM and SCULL_IOCHQUANTUM set the quantum to their argument, which
-- SCULL_IOCQQUANTUM then returns; the second also returns the old quantum if that is below 2 ^ 31.
pub tell_query :
    (u : UserAccess) (v arg : ℕ) (g : Globals)
    → u.access_ok v 0 ≡ true
    → u.access_ok arg 0 ≡ true
    → let told = scull_ioctl u true (scull_cmd io 3 0) v g in
      let shifted = scull_ioctl u true (scull_cmd io 11 0) v g in
      (told.0 ≡ ok 0)
      × ((scull_ioctl u false (scull_cmd io 7 0) arg told.1).0 ≡ ok v)
      × (shifted.1 ≡ told.1)
      × (g.params.scull_quantum < 2 ^ 31 → shifted.0 ≡ ok g.params.scull_quantum)
unfolding scull_ioctl case_of run_case
tell_query u v arg g fine fine' = ground arith

exchange_inv :
    (u : UserAccess) (arg : ℕ) (g g' : Globals)
    → scull_ioctl u true (scull_cmd iowr 9 sizeof_int) arg g ≡ (ok 0, g')
    → (v : ℕ) × (u.get_user g.user arg ≡ some v)
      × (g'.params.scull_quantum ≡ extend v)
      × ((u.put_user g.user arg (to_int g.params.scull_quantum)).0 ≡ true)
      × (g'.user ≡ (u.put_user g.user arg (to_int g.params.scull_quantum)).1)
unfolding scull_ioctl case_of run_case get_quantum put_int
exchange_inv u arg g g' e = elim (Option-cases (u.get_user g.user arg)) [
  | inl fault ↦ ground arith
  | inr (v, got) ↦ (v, got, ground arith, ground arith, ground arith)
]

-- Two exchanges at the same address, both successful, give back the quantum, if it was below
-- 2 ^ 31, and the user's `int`.
pub exchange_twice :
    (u : UserAccess) (arg : ℕ) (g g₁ g₂ : Globals)
    → IsUserAccess u
    → g.params.scull_quantum < 2 ^ 31
    → scull_ioctl u true (scull_cmd iowr 9 sizeof_int) arg g ≡ (ok 0, g₁)
    → scull_ioctl u true (scull_cmd iowr 9 sizeof_int) arg g₁ ≡ (ok 0, g₂)
    → (g₂.params.scull_quantum ≡ g.params.scull_quantum)
      × (u.get_user g₂.user arg ≡ u.get_user g.user arg)
exchange_twice u arg g g₁ g₂ access small e₁ e₂ =
    let (v, got₁, set₁, fine₁, put₁) = exchange_inv u arg g g₁ e₁ in
    let (w, got₂, set₂, fine₂, put₂) = exchange_inv u arg g₁ g₂ e₂ in
    let v_small = access.in_range g.user arg v got₁ in
    let back = access.put_get g.user arg (to_int g.params.scull_quantum) (omega arith) fine₁ in
    let same : to_int g₁.params.scull_quantum ≡ v = ground arith in
    let back' =
      access.put_get g₁.user arg v v_small
        (ap (λ x. (u.put_user g₁.user arg x).0) (sym same) ∙ fine₂) in
    let at : u.get_user g₁.user arg ≡ some (to_int g.params.scull_quantum) =
      ap (λ m. u.get_user m arg) put₁ ∙ back in
    let user₂ : g₂.user ≡ (u.put_user g₁.user arg v).1 =
      put₂ ∙ ap (λ x. (u.put_user g₁.user arg x).1) same in
    (ground arith, ap (λ m. u.get_user m arg) user₂ ∙ back' ∙ sym got₁)

-- A SCULL_IOCSQUANTUM whose address cannot be read returns EFAULT, and yet sets the quantum to 0:
-- each device that is emptied from then on faults at the next write that gets the lock.
pub failed_set_faults :
    (u : UserAccess) (k : Kernel) (arg : ℕ) (g : Globals) (s : Session) (buf count : ℕ)
    → u.access_ok arg sizeof_int ≡ true
    → u.get_user g.user arg ≡ none
    → let r = scull_ioctl u true (scull_cmd iow 1 sizeof_int) arg g in
      (r.0 ≡ err efault)
      × (scull_write k false (record s { dev = (trim r.1.params s.dev).1 }) buf count ≡ none)
unfolding scull_ioctl case_of run_case get_quantum
failed_set_faults u k arg g s buf count fine fault =
    (ground arith, zero_size_faults k r.1.params s buf count (inl (ground arith)))
  where
    r : Ret × Globals
    r = scull_ioctl u true (scull_cmd iow 1 sizeof_int) arg g
