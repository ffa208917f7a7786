-- ===== src/Examples/Base.antt =====
-- A concrete kernel, on which the operations of the drivers can be run: memory is never short, and
-- all copies go through.
use ldd3_workshop.Prelude.{◌+◌, ◌-◌, ◌≡◌, refl, ap, true, ◌&&◌, arith, ltb, leb, if◌then◌else◌}
use ldd3_workshop.Kernel.{Bytes, ok, Kernel, IsLinux}
use ldd3_workshop.Scull.Success.{IsKind}

abbrev pub small_kernel : Kernel
small_kernel = record {
  grants = λ _. true;
  garbage = λ _ _. 0;
  copy_to_user =
      λ user to from n. (0, λ a. if leb to a && ltb a (to + n) then from (a - to) else user a);
  copy_from_user = λ user to from n. (0, λ i. if ltb i n then user (from + i) else to i);
  fasync_helper = λ _ _ files. files;
  nonseekable_open = ok 0;
}

pub small_kernel-IsLinux : IsLinux small_kernel
small_kernel-IsLinux = record {
  to_copies = λ user to from n i e h.
      let back : to + i - to ≡ i = omega arith in ground (arith, ap from back);
  to_frame = λ user to from n a h. ground arith;
  from_copies = λ user to from n i e h. ground arith;
  from_frame = λ user to from n i h. ground arith;
  opens = refl;
}

pub small_kernel-IsKind : IsKind small_kernel
small_kernel-IsKind = record { granted = λ _. refl; readable = λ _ _ _ _. refl }

-- User memory, with the byte `100 + a` at the address `a`.
abbrev pub user_bytes : Bytes
user_bytes a = 100 + a
