-- ===== src/Kernel.antt =====
-- What the drivers use of the Linux kernel: error codes, memory allocation and the copies between
-- kernel and user memory. None of it is code of this repository, so it is a parameter: `Kernel`
-- holds the operations, and `IsLinux` what their documentation promises.
use ldd3_workshop.Prelude.{ℕ, ◌+◌, ◌≤◌, ◌<◌, ◌≡◌, ◌⊎◌, Bool, List}

-- The error codes that the drivers return, each as the constant without its minus sign.
pub data Errno : Type 0 where
  enomem efault erestartsys eagain eperm enotty ebusy ecanceled einval enodev : Errno

-- What a system call returns: a length or value, or a negated error code.
pub data Ret : Type 0 where
  ok : ℕ → Ret
  err : Errno → Ret

-- User memory, and the memory behind a kernel pointer, are functions from an offset to a byte.
abbrev pub Bytes : Type 0
Bytes = ℕ → ℕ

pub record Kernel : Type 0 where
  -- Whether the n-th request for memory is granted.
  pub grants : ℕ → Bool
  -- What the memory of the n-th request holds before it is written.
  pub garbage : ℕ → Bytes
  -- User memory, a user address, the kernel bytes and a length give the number of bytes that
  -- could not be copied, and the new user memory.
  pub copy_to_user : Bytes → ℕ → Bytes → ℕ → ℕ × Bytes
  -- User memory, the kernel bytes, a user address and a length give the number of bytes that
  -- could not be copied, and the new kernel bytes.
  pub copy_from_user : Bytes → Bytes → ℕ → ℕ → ℕ × Bytes
  -- A file and whether to add or to remove it give the new list of files to signal.
  pub fasync_helper : ℕ → Bool → List ℕ → List ℕ
  pub nonseekable_open : Ret

-- The documented behaviour: a copy that results in 0 has copied all bytes, neither copy writes
-- outside the given range, and `nonseekable_open` never fails.
pub record IsLinux (k : Kernel) : Type 0 where
  pub to_copies :
      (user : Bytes) (to : ℕ) (from : Bytes) (n i : ℕ)
      → (k.copy_to_user user to from n).0 ≡ 0
      → i < n
      → (k.copy_to_user user to from n).1 (to + i) ≡ from i
  pub to_frame :
      (user : Bytes) (to : ℕ) (from : Bytes) (n a : ℕ)
      → (a < to) ⊎ (to + n ≤ a)
      → (k.copy_to_user user to from n).1 a ≡ user a
  pub from_copies :
      (user to : Bytes) (from n i : ℕ)
      → (k.copy_from_user user to from n).0 ≡ 0
      → i < n
      → (k.copy_from_user user to from n).1 i ≡ user (from + i)
  pub from_frame :
      (user to : Bytes) (from n i : ℕ) → n ≤ i → (k.copy_from_user user to from n).1 i ≡ to i
  pub opens : k.nonseekable_open ≡ ok 0
