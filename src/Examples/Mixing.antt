-- ===== src/Examples/Mixing.antt =====
-- Calls and commands on memory devices (scull/main.c, scull/ioctl.c), and interrupts and a test of the
-- edu device (edu/irq.c, edu/sysfs.c), in one run each.
use ldd3_workshop.Prelude.{refl, true, false, List, [], ◌∷◌, arith}
use ldd3_workshop.Scull.History.{opens, reads, writes}
use ldd3_workshop.Scull.AsFile.{IsFile}
use ldd3_workshop.Scull.Control.{Control, Action, calls, commands, acts, IsControlled}
use ldd3_workshop.Scull.Resizing.{acts-IsControlled}
use ldd3_workshop.Ioctl.Handler.{io, case_of}
use ldd3_workshop.Ioctl.Laws.{scull_cmd}
use ldd3_workshop.Edu.Irq.{qedu_handle_irq}
use ldd3_workshop.Edu.State.{qedu_is_irq_done}
use ldd3_workshop.Edu.TestIrq.{start_test}
use ldd3_workshop.Edu.Watch.{
  Bedside, Awaits, IsWatched, away, in_queue, asleep, looks, stay, move, hard_irq, start, prepare,
  recheck, Moves-IsWatched,
}
use ldd3_workshop.Examples.Base.{small_kernel, small_kernel-IsLinux, user_bytes}
use ldd3_workshop.Examples.Memory.{no_calls, empty_dev-IsSized, empty_dev-IsWellFormed}
use ldd3_workshop.Examples.Control.{ints, globals, idle}

no_calls-IsFile : IsFile no_calls
no_calls-IsFile = record {
  sized = empty_dev-IsSized;
  shape = empty_dev-IsWellFormed;
  small = omega arith;
  same_len = refl;
  holds = λ x b e. cc;
  no_fault = refl;
}

-- Two devices of the default sizes.
abbrev two_devices : Control
two_devices = record {
  globals = globals;
  object_size = 4000;
  requests = 0;
  devices = no_calls ∷ no_calls ∷ [];
}

-- A device is written, the size of the quanta is told, another device is emptied and written with it,
-- a process without the privilege resets the sizes, and both devices are read.
abbrev some_actions : List Action
some_actions =
    calls 0 (writes false user_bytes 9 20 5)
    ∷ commands true (scull_cmd io 3 0) 2000 user_bytes
    ∷ calls 1 (opens false 1)
    ∷ calls 1 (writes false user_bytes 0 20 5)
    ∷ commands false (scull_cmd io 0 0) 0 user_bytes
    ∷ calls 0 (reads false user_bytes 9 60 5)
    ∷ calls 1 (reads false user_bytes 0 60 5)
    ∷ []

acts-IsControlled_example : IsControlled 1000 4000 (acts small_kernel ints two_devices some_actions)
unfolding case_of
acts-IsControlled_example =
    acts-IsControlled small_kernel ints 1000 4000 two_devices some_actions small_kernel-IsLinux
      (omega arith) (omega arith) (omega arith)
      (
        omega arith,
        (
          (omega arith, omega arith, omega arith),
          (tt, (omega arith, (tt, (omega arith, (omega arith, tt))))),
        ),
      )
      (record {
        objects = refl;
        quantum = (omega arith, omega arith, omega arith);
        qset_pos = omega arith;
        qset_small = omega arith;
        files = ((no_calls-IsFile, omega arith), ((no_calls-IsFile, omega arith), tt));
      })

abbrev at_rest : Bedside
at_rest = record { dev = idle; phase = away; owed = false }

-- A test enters the queue, an interrupt comes whose handler finds the lock taken, the test finds that it
-- is not done, and sleeps.
abbrev started : Bedside
started = looks (start_test 1000 idle) false

abbrev entered : Bedside
entered = record started { phase = in_queue 0 }

abbrev raised : Bedside
raised = record entered { dev = (qedu_handle_irq 2 false entered.dev).1; owed = true }

abbrev sleeping : Bedside
sleeping = record raised { phase = asleep 0 }

Moves-IsWatched_example : IsWatched sleeping
unfolding Awaits qedu_is_irq_done start_test qedu_handle_irq
Moves-IsWatched_example =
    Moves-IsWatched at_rest sleeping
      (move (start 1000 at_rest refl refl) (
        move (prepare started refl)
          (move (hard_irq 2 false entered) (move (recheck raised 0 refl) (stay sleeping)))))
      tt
