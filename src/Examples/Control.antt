-- ===== src/Examples/Control.antt =====
-- Commands to `scull_ioctl` (scull/ioctl.c), and states of the edu driver (edu/irq.c, edu/sysfs.c).
use ldd3_workshop.Prelude.{
  ◌≡◌, ◌⊎◌, ◌∷◌, inl, inr, refl, true, false, none, some, List, [], arith, ◌==◌, if◌then◌else◌,
}
use ldd3_workshop.Kernel.{ebusy, ecanceled}
use ldd3_workshop.Ioctl.Handler.{
  io, Cmd, UserAccess, iocreset, p_ioctsize, case_of, default_params, Globals, to_int, scull_ioctl,
}
use ldd3_workshop.Ioctl.Laws.{IsUserAccess, scull_cmd, ioctl_unprivileged}
use ldd3_workshop.Edu.State.{Flags, QeduDevice, qedu_set_waiting_irq}
use ldd3_workshop.Edu.Irq.{handle_irq_locked, qedu_thr_handle_irq}
use ldd3_workshop.Edu.TestIrq.{
  Wakeup, resumed, error, start_test, test_irq_show, Ended, test_irq_show-Ended,
}
use ldd3_workshop.Edu.System.{
  System, stay, step, start, IsExclusive, one_test, interrupted_test_sticks,
}
use ldd3_workshop.Examples.Base.{user_bytes}

-- User memory in which each address holds an `int`; the address 0 is not one of the process.
abbrev pub ints : UserAccess
ints = record {
  access_ok = λ _ _. true;
  get_user = λ m a. if a == 0 then none else some (to_int (m a));
  put_user = λ m a v. if a == 0 then (false, m) else (true, λ b. if b == a then v else m b);
}

ints-IsUserAccess : IsUserAccess ints
ints-IsUserAccess = record {
  in_range = λ m a v e. ground arith;
  put_get = λ m a v h e. ground arith;
}

abbrev pub globals : Globals
globals = record { params = default_params; scull_p_len = 4000; user = user_bytes }

abbrev tell_size : Cmd
tell_size = scull_cmd io 13 0

ioctl_unprivileged_example :
    let g' = (scull_ioctl ints false tell_size 64 globals).1 in
    ((g'.params ≡ default_params) ⊎ ((case_of tell_size ≡ iocreset) × (g'.params ≡ default_params)))
    × ((g'.scull_p_len ≡ 4000) ⊎ ((case_of tell_size ≡ p_ioctsize) × (g'.scull_p_len ≡ 64)))
ioctl_unprivileged_example = ioctl_unprivileged ints tell_size 64 globals

abbrev edu : Flags → QeduDevice
edu flags = record { state = flags; timeout = 500; timer = none; writes = []; wakes = 0 }

abbrev no_flags : Flags
no_flags = record { irq_wait = false; irq_ok = false; irq_timedout = false; shutdown = false }

abbrev pub idle : QeduDevice
idle = edu no_flags

-- The test sleeps, and finds that the interrupt was handled.
abbrev handled : List Wakeup
unfolding qedu_thr_handle_irq handle_irq_locked start_test qedu_set_waiting_irq
handled = resumed (qedu_thr_handle_irq 2 (start_test 1000 idle)).1 ∷ []

test_irq_show-Ended_example :
    let r = test_irq_show 1000 handled idle in
    ((false ≡ true) × (r ≡ (error ecanceled, idle)))
    ⊎ (((false ≡ false) × (false ≡ true) × (r ≡ (error ebusy, idle)))
        ⊎ ((false ≡ false) × (false ≡ false) × Ended handled (start_test 1000 idle) r.0 r.1))
test_irq_show-Ended_example = test_irq_show-Ended 1000 handled idle

abbrev at_rest : System
at_rest = record { dev = idle; testers = 0 }

abbrev testing : System
testing = record { dev = start_test 1000 idle; testers = 1 }

one_test_example : IsExclusive testing
unfolding IsExclusive
one_test_example =
    one_test at_rest testing (step (start 1000 at_rest refl refl) (stay testing)) (inl refl)

interrupted_test_sticks_example :
    let t = record testing { testers = 0 } in
    ((test_irq_show 1000 [] t.dev).0 ≡ error ebusy)
    ⊎ ((test_irq_show 1000 [] t.dev).0 ≡ error ecanceled)
unfolding IsExclusive start_test qedu_set_waiting_irq
interrupted_test_sticks_example =
    interrupted_test_sticks testing (record testing { testers = 0 }) 1000 [] (inr (refl, refl)) refl
      (stay (record testing { testers = 0 }))
