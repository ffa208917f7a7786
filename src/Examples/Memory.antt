-- ===== src/Examples/Memory.antt =====
-- A memory device of scull/main.c with two pointers in each set, to quanta of four bytes.
use ldd3_workshop.Prelude.{
  ℕ, ◌+◌, ◌-◌, ◌^◌, ◌≡◌, ◌<◌, ◌≤◌, min, true, List, refl, false, Option, none, some, [], ◌∷◌, arith,
  times, ◌==◌,
}
use ldd3_workshop.Kernel.{Ret, ok, err, enomem, Kernel, IsLinux, Bytes}
use ldd3_workshop.Scull.Device.{Quantum, ScullDev, Params, trim}
use ldd3_workshop.Scull.Io.{
  Session, total_len, position, follow_loop, follow_from, follow, copy_in, write_slot, write_set,
  write_walked, scull_write, copy_out, read_set, read_walked, scull_read,
}
use ldd3_workshop.Scull.Position.{IsSized}
use ldd3_workshop.Scull.Content.{IsWellFormed}
use ldd3_workshop.Scull.Write.{Wrote, scull_write-Wrote}
use ldd3_workshop.Scull.Read.{Read, scull_read-Read}
use ldd3_workshop.Scull.Spares.{Spares, scull_write-Spares}
use ldd3_workshop.Scull.History.{no_bytes, Call, opens, reads, writes, History, entering, run}
use ldd3_workshop.Scull.AsFile.{IsFile}
use ldd3_workshop.Scull.Refine.{run-IsFile}
use ldd3_workshop.Scull.Success.{read-write}
use ldd3_workshop.Scull.Trim.{held, left_over, arrays, trim_lem}
use ldd3_workshop.Examples.Base.{small_kernel, small_kernel-IsLinux, user_bytes}

abbrev pub empty_dev : ScullDev
empty_dev = record { qset = []; quantum_len = 4; qset_len = 2; len = 0 }

pub empty_dev-IsSized : IsSized empty_dev
empty_dev-IsSized = record { quantum_pos = omega arith; qset_pos = omega arith; fits = omega arith }

pub empty_dev-IsWellFormed : IsWellFormed empty_dev
empty_dev-IsWellFormed i a h = ground arith

-- A file of the empty device, at position 9: offset 1 of the first quantum of the second set.
abbrev pub at_nine : Session
at_nine = record { dev = empty_dev; requests = 0; user = user_bytes; f_pos = 9 }

abbrev after : Session → Option (Ret × Session) → Session
after s none = s
after s (some (r, s')) = s'

-- The session after a write of five bytes, of which three fit, and after reading them back.
abbrev written : Session
unfolding total_len position follow_loop follow_from follow copy_in write_slot write_set
    write_walked scull_write
written = after at_nine (scull_write small_kernel false at_nine 20 5)

abbrev rewound : Session
rewound = record written { f_pos = 9 }

abbrev reread : Session
unfolding total_len position follow_loop follow_from follow copy_out read_set read_walked scull_read
reread = after rewound (scull_read small_kernel false rewound 60 5)

writes_three : scull_write small_kernel false at_nine 20 5 ≡ some (ok 3, written)
unfolding total_len position follow_loop follow_from follow copy_in write_slot write_set
    write_walked scull_write
writes_three = refl

reads_three : scull_read small_kernel false rewound 60 5 ≡ some (ok 3, reread)
unfolding total_len position follow_loop follow_from follow copy_out read_set read_walked scull_read
    written
reads_three = refl

scull_write-Wrote_example : Wrote empty_dev user_bytes 9 20 5 3 written
scull_write-Wrote_example =
    scull_write-Wrote small_kernel at_nine 20 5 3 written small_kernel-IsLinux empty_dev-IsSized
      empty_dev-IsWellFormed (omega arith) writes_three

written_dev-IsSized : IsSized written.dev
unfolding written
written_dev-IsSized = record {
  quantum_pos = omega arith;
  qset_pos = omega arith;
  fits = omega arith;
}

scull_read-Read_example : Read written.dev user_bytes 9 60 5 3 reread
unfolding written
scull_read-Read_example =
    scull_read-Read small_kernel rewound 60 5 3 reread small_kernel-IsLinux written_dev-IsSized
      (omega arith) (omega arith) reads_three

read-write_example :
    ◌≡◌ {A = ℕ} 3 3 × ((i : ℕ) → i < 3 → reread.user (60 + i) ≡ user_bytes (20 + i))
unfolding written
read-write_example =
    read-write small_kernel at_nine 20 60 5 3 3 written reread small_kernel-IsLinux
      empty_dev-IsSized empty_dev-IsWellFormed (omega arith) (omega arith) writes_three reads_three

-- The same kernel with memory for one request only.
abbrev short_kernel : Kernel
short_kernel = record small_kernel { grants = λ n. n == 0 }

short_kernel-IsLinux : IsLinux short_kernel
short_kernel-IsLinux = record {
  to_copies = small_kernel-IsLinux.to_copies;
  to_frame = small_kernel-IsLinux.to_frame;
  from_copies = small_kernel-IsLinux.from_copies;
  from_frame = small_kernel-IsLinux.from_frame;
  opens = small_kernel-IsLinux.opens;
}

abbrev stopped : Session
unfolding total_len position follow_loop follow_from follow copy_in write_slot write_set
    write_walked scull_write
stopped = after at_nine (scull_write short_kernel false at_nine 20 5)

write_stops : scull_write short_kernel false at_nine 20 5 ≡ some (err enomem, stopped)
unfolding total_len position follow_loop follow_from follow copy_in write_slot write_set
    write_walked scull_write
write_stops = refl

scull_write-Spares_example : Spares empty_dev 9 5 (err enomem, stopped)
scull_write-Spares_example =
    scull_write-Spares short_kernel false at_nine 20 5 (err enomem, stopped) short_kernel-IsLinux
      empty_dev-IsSized empty_dev-IsWellFormed write_stops

-- The empty file, and calls that open it for writing, write to it and read it.
abbrev pub no_calls : History
no_calls = record { dev = empty_dev; requests = 0; file = no_bytes; faulted = false }

abbrev pub some_calls : List Call
some_calls =
    opens false 1
    ∷ writes false user_bytes 9 20 5
    ∷ reads false user_bytes 9 60 2
    ∷ writes true user_bytes 12 20 5
    ∷ []

abbrev pub small_params : Params
small_params = record { scull_quantum = 4; scull_qset = 2 }

run-IsFile_example :
    let h = run small_kernel small_params no_calls some_calls in
    IsFile h
    × ((user : Bytes) (f_pos buf count n : ℕ) (s : Session)
        → f_pos + count < 2 ^ 63
        → scull_read small_kernel false (entering h user f_pos) buf count ≡ some (ok n, s)
        → (n ≤ min count (h.file.size - f_pos))
          × ((i b : ℕ) → i < n → h.file.at (f_pos + i) ≡ some b → s.user (buf + i) ≡ b))
run-IsFile_example =
    run-IsFile small_kernel small_params no_calls some_calls small_kernel-IsLinux
      (record { quantum_pos = omega arith; qset_pos = omega arith; fits = omega arith })
      (record {
        sized = empty_dev-IsSized;
        shape = empty_dev-IsWellFormed;
        small = omega arith;
        same_len = refl;
        holds = λ x b e. cc;
        no_fault = refl;
      })
      (tt, (omega arith, (omega arith, (omega arith, tt))))

abbrev defaults : Params
defaults = record { scull_quantum = 4000; scull_qset = 1000 }

abbrev quantum : ℕ → Quantum
quantum r = record { request = r; bytes = user_bytes }

-- A device with one set, whose two pointers both have a quantum.
abbrev full_dev : ScullDev
full_dev = record {
  qset = record { quanta = some (some (quantum 1) ∷ some (quantum 2) ∷ []) } ∷ [];
  quantum_len = 4;
  qset_len = 2;
  len = 8;
}

trim_lem_example :
    let (freed, dev') = trim defaults full_dev in
    ((r : ℕ)
      → times r (held full_dev.qset) ≡ times r freed.objects + times r (left_over 1 full_dev.qset))
    × (freed.arrays ≡ arrays full_dev.qset)
    × (freed.sets ≡ 1)
    × (held dev'.qset ≡ [])
    × (dev'.len ≡ 0)
    × (dev'.quantum_len ≡ 4000)
    × (dev'.qset_len ≡ 1000)
trim_lem_example = trim_lem defaults full_dev (omega arith) (omega arith)
