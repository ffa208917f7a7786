-- ===== src/Scull/Resizing.antt =====
-- What commands do to the sizes of the scull module (scull/ioctl.c), and what calls and commands in any
-- order do to its devices (scull/main.c).
use native.Mathlib.Nat.{mul-le-mul_left}
use ldd3_workshop.Prelude.{
  ℕ, zero, suc, ◌*◌, ◌^◌, ◌≤◌, ◌<◌, ◌≡◌, ◌⊎◌, inl, inr, Bool, true, false, some, List, [], ◌∷◌,
  arith, get_elem?, set, Option-cases, Bool-cases,
}
use ldd3_workshop.Kernel.{Kernel, IsLinux}
use ldd3_workshop.Scull.Device.{Params, trim, scull_open}
use ldd3_workshop.Scull.Shape.{scull_write-Keeps}
use ldd3_workshop.Scull.History.{Call, opens, reads, writes, History, entering, call, InBounds}
use ldd3_workshop.Scull.AsFile.{IsSound, IsFile, read-SameContent, write_returns}
use ldd3_workshop.Scull.Refine.{call-IsFile}
use ldd3_workshop.Ioctl.Handler.{
  Cmd, UserAccess, Case, iocreset, iocsquantum, ioctquantum, iocgquantum, iocqquantum, iocxquantum,
  iochquantum, p_ioctsize, p_iocqsize, other, case_of, Globals, extend, to_int, with_quantum,
  default_params, get_quantum, put_int, run_case, scull_ioctl,
}
use ldd3_workshop.Scull.Control.{
  Control, Action, calls, commands, act, acts, IsQuantum, IsFair, IsFairAction, AllFair, EachFile,
  IsControlled,
}

EachFile-at :
    (z : ℕ) (hs : List History) (i : ℕ) (h : History)
    → get_elem? hs i ≡ some h
    → EachFile z hs
    → IsFile h × (h.dev.quantum_len ≤ z)
EachFile-at z [] i h e f = cc
EachFile-at z (g ∷ hs) zero h e (here, there) = let same : g ≡ h = cc in rw (← same) here
EachFile-at z (g ∷ hs) (suc i) h e (here, there) = EachFile-at z hs i h e there

EachFile-set :
    (z : ℕ) (hs : List History) (i : ℕ) (h : History)
    → IsFile h × (h.dev.quantum_len ≤ z)
    → EachFile z hs
    → EachFile z (set hs i h)
EachFile-set z [] i h f fs = tt
EachFile-set z (g ∷ hs) zero h f (here, there) = (f, there)
EachFile-set z (g ∷ hs) (suc i) h f (here, there) = (here, EachFile-set z hs i h f there)

-- A call leaves the size of the quanta, or takes over that of the parameters.
call-quantum :
    (k : Kernel) (p : Params) (h : History) (c : Call)
    → IsFile h
    → let q = (call k p h c).dev.quantum_len in (q ≡ h.dev.quantum_len) ⊎ (q ≡ p.scull_quantum)
unfolding call scull_open trim
call-quantum k p h (opens interrupted flags) i = ground arith
call-quantum k p h (reads interrupted user f_pos buf count) i =
    let (r, e, c) = read-SameContent k interrupted (entering h user f_pos) buf count i.sized in
    rw (e, call) (inl c.same_quantum)
call-quantum k p h (writes interrupted user f_pos buf count) i =
    let s = entering h user f_pos in
    let (r, e) = write_returns k interrupted s buf count i.sized in
    rw (e, call) (inl (scull_write-Keeps k interrupted s buf count r i.shape e).same_quantum)

module _ (n z : ℕ) where
  abbrev Sized : Globals → Type 0
  Sized g =
      IsQuantum n z g.params.scull_quantum × (0 < g.params.scull_qset) × (g.params.scull_qset ≤ n)

  Sized-IsSound :
      (p : Params) → IsQuantum n z p.scull_quantum → 0 < p.scull_qset → p.scull_qset ≤ n → IsSound p
  Sized-IsSound p (pos, within, fits) qset_pos qset_small = record {
    quantum_pos = pos;
    qset_pos = qset_pos;
    fits = omega (arith, mul-le-mul_left p.scull_quantum qset_small);
  }

  reset-Sized :
      (g : Globals)
      → 1000 ≤ n
      → 4000 ≤ z
      → 4000 * n < 2 ^ 63
      → Sized (record g { params = default_params })
  reset-Sized g big wide fits = ((omega arith, wide, fits), omega arith, big)

  with_quantum-Sized : (q : ℕ) (g : Globals) → IsQuantum n z q → Sized g → Sized (with_quantum q g)
  with_quantum-Sized q g fair (_, pos, small) = (fair, pos, small)

  get_quantum-Sized :
      (u : UserAccess) (arg v : ℕ) (g : Globals)
      → u.get_user g.user arg ≡ some v
      → IsQuantum n z (extend v)
      → Sized g
      → Sized (get_quantum u arg g).1
  unfolding get_quantum
  get_quantum-Sized u arg v g e q (_, pos, small) = rw (e, get_quantum) (q, pos, small)

  put_int-Sized : (u : UserAccess) (v arg : ℕ) (g : Globals) → Sized g → Sized (put_int u v arg g).1
  unfolding put_int
  put_int-Sized u v arg g s = s

  -- What a process without the privilege may change is sound.
  unprivileged-Sized :
      (u : UserAccess) (c : Case) (arg : ℕ) (g : Globals)
      → 1000 ≤ n
      → 4000 ≤ z
      → 4000 * n < 2 ^ 63
      → Sized g
      → Sized (run_case u false c arg g).1
  unfolding run_case
  unprivileged-Sized u iocreset arg g big wide fits s = reset-Sized g big wide fits
  unprivileged-Sized u iocsquantum arg g big wide fits s = s
  unprivileged-Sized u ioctquantum arg g big wide fits s = s
  unprivileged-Sized u iocgquantum arg g big wide fits s =
      put_int-Sized u g.params.scull_quantum arg g s
  unprivileged-Sized u iocqquantum arg g big wide fits s = s
  unprivileged-Sized u iocxquantum arg g big wide fits s = s
  unprivileged-Sized u iochquantum arg g big wide fits s = s
  unprivileged-Sized u p_ioctsize arg g big wide fits s = s
  unprivileged-Sized u p_iocqsize arg g big wide fits s = s
  unprivileged-Sized u other arg g big wide fits s = s

  privileged-Sized :
      (u : UserAccess) (c : Case) (arg : ℕ) (g : Globals)
      → 1000 ≤ n
      → 4000 ≤ z
      → 4000 * n < 2 ^ 63
      → IsFair n z u c arg g.user
      → Sized g
      → Sized (run_case u true c arg g).1
  unfolding run_case
  privileged-Sized u iocreset arg g big wide fits fair s = reset-Sized g big wide fits
  privileged-Sized u iocsquantum arg g big wide fits (v, e, q) s = get_quantum-Sized u arg v g e q s
  privileged-Sized u ioctquantum arg g big wide fits fair s = with_quantum-Sized arg g fair s
  privileged-Sized u iocgquantum arg g big wide fits fair s =
      put_int-Sized u g.params.scull_quantum arg g s
  privileged-Sized u iocqquantum arg g big wide fits fair s = s
  privileged-Sized u iocxquantum arg g big wide fits (v, e, q) s =
      let g' = (get_quantum u arg g).1 in
      let s' = get_quantum-Sized u arg v g e q s in
      elim (Bool-cases (get_quantum u arg g).0) [
        | inl fine ↦ rw (fine, run_case) (put_int-Sized u (to_int g.params.scull_quantum) arg g' s')
        | inr fault ↦ rw (fault, run_case) s'
      ]
  privileged-Sized u iochquantum arg g big wide fits fair s = with_quantum-Sized arg g fair s
  privileged-Sized u p_ioctsize arg g big wide fits fair s = s
  privileged-Sized u p_iocqsize arg g big wide fits fair s = s
  privileged-Sized u other arg g big wide fits fair s = s

  -- A command is refused, and changes nothing, or does what its case does.
  ioctl_cases :
      (u : UserAccess) (capable : Bool) (cmd : Cmd) (arg : ℕ) (g : Globals)
      → ((scull_ioctl u capable cmd arg g).1 ≡ g)
        ⊎ ((scull_ioctl u capable cmd arg g).1 ≡ (run_case u capable (case_of cmd) arg g).1)
  unfolding scull_ioctl
  ioctl_cases u capable cmd arg g = ground arith

module _ (k : Kernel) (u : UserAccess) (linux : IsLinux k) (n z : ℕ) (big : 1000 ≤ n)
    (wide : 4000 ≤ z) (fits : 4000 * n < 2 ^ 63) where
  command-Sized :
      (g : Globals) (capable : Bool) (cmd : Cmd) (arg : ℕ)
      → IsFairAction n z u (commands capable cmd arg g.user)
      → Sized n z g
      → Sized n z (scull_ioctl u capable cmd arg g).1
  command-Sized g false cmd arg fair s = elim (ioctl_cases n z u false cmd arg g) [
    | inl refused ↦ rw refused s
    | inr done ↦ rw done (unprivileged-Sized n z u (case_of cmd) arg g big wide fits s)
  ]
  command-Sized g true cmd arg fair s = elim (ioctl_cases n z u true cmd arg g) [
    | inl refused ↦ rw refused s
    | inr done ↦ rw done (privileged-Sized n z u (case_of cmd) arg g big wide fits fair s)
  ]

  call-IsControlled :
      (s : Control) (i : ℕ) (c : Call) (h : History)
      → get_elem? s.devices i ≡ some h
      → InBounds c
      → IsControlled n z s
      → IsControlled n z (act k u s (calls i c))
  unfolding act
  call-IsControlled s i c h at bound j =
      let sound = Sized-IsSound n z s.globals.params j.quantum j.qset_pos j.qset_small in
      let (f, small) = EachFile-at z s.devices i h at j.files in
      let h₀ = record h { requests = s.requests } in
      let f₀ : IsFile h₀ = record {
        sized = f.sized;
        shape = f.shape;
        small = f.small;
        same_len = f.same_len;
        holds = f.holds;
        no_fault = f.no_fault;
      } in
      let f' = call-IsFile k s.globals.params linux sound h₀ c f₀ bound in
      rw (at, act)
        (record {
          objects = j.objects;
          quantum = j.quantum;
          qset_pos = j.qset_pos;
          qset_small = j.qset_small;
          files =
              EachFile-set z s.devices i (call k s.globals.params h₀ c)
                (
                  f',
                  elim (call-quantum k s.globals.params h₀ c f₀) [
                    | inl e ↦ rw e small
                    | inr e ↦ rw e j.quantum.1
                  ],
                )
                j.files;
        })

  act-IsControlled :
      (s : Control) (a : Action)
      → IsFairAction n z u a
      → IsControlled n z s
      → IsControlled n z (act k u s a)
  unfolding act
  act-IsControlled s (calls i c) bound j = elim (Option-cases (get_elem? s.devices i)) [
    | inl missing ↦ rw (missing, act) j
    | inr (h, at) ↦ call-IsControlled s i c h at bound j
  ]
  act-IsControlled s (commands capable cmd arg user) fair j =
      let (q, pos, small) =
        command-Sized (record s.globals { user = user }) capable cmd arg fair
          (j.quantum, j.qset_pos, j.qset_small) in
      record {
        objects = j.objects;
        quantum = q;
        qset_pos = pos;
        qset_small = small;
        files = j.files;
      }

-- Whatever calls on any of the devices and whatever commands come, in any order, where the sizes are
-- sound at first, the objects of the cache have at least the 4000 bytes that a reset sets, calls are
-- below the position 2 ^ 63, and the processes with CAP_SYS_ADMIN set no size that is 0, too large for
-- a `loff_t`, or larger than the objects of the cache: the sizes stay sound, no call divides by zero,
-- no device has quanta larger than the objects of the cache, and each device, whatever sizes it took
-- over, is the file that the calls on it made, through all changes of the sizes. Other processes may
-- give any command, also with memory that cannot be read.
pub acts-IsControlled :
    (k : Kernel) (u : UserAccess) (n z : ℕ) (s : Control) (actions : List Action)
    → IsLinux k
    → 1000 ≤ n
    → 4000 ≤ z
    → 4000 * n < 2 ^ 63
    → AllFair n z u actions
    → IsControlled n z s
    → IsControlled n z (acts k u s actions)
unfolding acts
acts-IsControlled k u n z s [] linux big wide fits fair j = j
acts-IsControlled k u n z s (a ∷ rest) linux big wide fits (here, there) j =
    acts-IsControlled k u n z (act k u s a) rest linux big wide fits there
      (act-IsControlled k u linux n z big wide fits s a here j)
