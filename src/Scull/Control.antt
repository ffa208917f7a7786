-- ===== src/Scull/Control.antt =====
-- The memory devices of the scull module as they are used and controlled: any calls of `open`, `read`
-- and `write` (scull/main.c) and of `scull_ioctl` (scull/ioctl.c), whose commands change the sizes that
-- the next device to be emptied takes over.
use ldd3_workshop.Prelude.{
  ℕ, ◌*◌, ◌^◌, ◌≤◌, ◌<◌, ◌≡◌, Bool, true, false, none, some, List, [], ◌∷◌, get_elem?, set,
}
use ldd3_workshop.Kernel.{Bytes, Kernel}
use ldd3_workshop.Scull.History.{Call, History, call, InBounds}
use ldd3_workshop.Scull.AsFile.{IsFile}
use ldd3_workshop.Ioctl.Handler.{
  Cmd, UserAccess, Case, iocreset, iocsquantum, ioctquantum, iocgquantum, iocqquantum, iocxquantum,
  iochquantum, p_ioctsize, p_iocqsize, other, case_of, Globals, extend, scull_ioctl,
}

-- The variables of the module, the size of the objects of its cache, which `kmem_cache_create` is given
-- once, at loading, the number of requests for memory so far, and its devices, each with the file that
-- the calls on it made.
pub record Control : Type 0 where
  pub globals : Globals
  pub object_size : ℕ
  pub requests : ℕ
  pub devices : List History

-- A call on the `i`th device, or a command, with the memory of the process that gives it. The Boolean
-- is whether the process has CAP_SYS_ADMIN.
pub data Action : Type 0 where
  calls : ℕ → Call → Action
  commands : Bool → Cmd → ℕ → Bytes → Action

module _ (k : Kernel) (u : UserAccess) where
  unfoldable pub act : Control → Action → Control
  act s (calls i c) = elim (get_elem? s.devices i) [
    | none ↦ s
    | some h ↦
        (let h' = call k s.globals.params (record h { requests = s.requests }) c in
          record s { requests = h'.requests; devices = set s.devices i h' })
  ]
  act s (commands capable cmd arg user) = record s {
    globals = (scull_ioctl u capable cmd arg (record s.globals { user = user })).1;
  }

  unfoldable pub acts : Control → List Action → Control
  acts s [] = s
  acts s (a ∷ rest) = acts (act s a) rest

-- A size of quanta that is not 0, for which objects of `z` bytes are large enough, and which in sets of
-- up to `n` pointers keeps to a `loff_t`.
abbrev pub IsQuantum : ℕ → ℕ → ℕ → Type 0
IsQuantum n z q = (0 < q) × (q ≤ z) × (q * n < 2 ^ 63)

-- The sizes that a command sets.
abbrev pub IsFair : ℕ → ℕ → UserAccess → Case → ℕ → Bytes → Type 0
IsFair n z u iocsquantum arg user =
    (v : ℕ) × (u.get_user user arg ≡ some v) × IsQuantum n z (extend v)
IsFair n z u iocxquantum arg user =
    (v : ℕ) × (u.get_user user arg ≡ some v) × IsQuantum n z (extend v)
IsFair n z u ioctquantum arg user = IsQuantum n z arg
IsFair n z u iochquantum arg user = IsQuantum n z arg
IsFair n z u iocreset arg user = Unit
IsFair n z u iocgquantum arg user = Unit
IsFair n z u iocqquantum arg user = Unit
IsFair n z u p_ioctsize arg user = Unit
IsFair n z u p_iocqsize arg user = Unit
IsFair n z u other arg user = Unit

abbrev pub IsFairAction : ℕ → ℕ → UserAccess → Action → Type 0
IsFairAction n z u (calls i c) = InBounds c
IsFairAction n z u (commands false cmd arg user) = Unit
IsFairAction n z u (commands true cmd arg user) = IsFair n z u (case_of cmd) arg user

abbrev pub AllFair : ℕ → ℕ → UserAccess → List Action → Type 0
AllFair n z u [] = Unit
AllFair n z u (a ∷ rest) = IsFairAction n z u a × AllFair n z u rest

-- Each device is its file, and its quanta keep to objects of `z` bytes.
abbrev pub EachFile : ℕ → List History → Type 0
EachFile z [] = Unit
EachFile z (h ∷ hs) = (IsFile h × (h.dev.quantum_len ≤ z)) × EachFile z hs

-- The sizes are sound, also in the sets of up to `n` pointers of the commands, and quanta keep to the
-- objects of the cache, of `z` bytes.
pub record IsControlled (n z : ℕ) (s : Control) : Type 0 where
  pub objects : s.object_size ≡ z
  pub quantum : IsQuantum n z s.globals.params.scull_quantum
  pub qset_pos : 0 < s.globals.params.scull_qset
  pub qset_small : s.globals.params.scull_qset ≤ n
  pub files : EachFile z s.devices
