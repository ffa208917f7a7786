-- ===== src/Scull/History.antt =====
-- Any number of opens, reads and writes of one memory device (scull/main.c), each call on its own
-- file position: what the device then is to its readers, as a file of bytes.
use ldd3_workshop.Prelude.{
  ℕ, ◌+◌, ◌-◌, ◌^◌, ◌<◌, Bool, true, ◌&&◌, Option, none, some, List, [], ◌∷◌, max, ltb, leb,
  if◌then◌else◌,
}
use ldd3_workshop.Kernel.{Bytes, Ret, ok, err, Kernel}
use ldd3_workshop.Scull.Device.{ScullDev, Params, is_write_only, scull_open}
use ldd3_workshop.Scull.Io.{Session, scull_read, scull_write}

-- A file as its callers think of it: its length, and its bytes, `none` where nothing is promised.
pub record ByteFile : Type 0 where
  pub size : ℕ
  pub at : ℕ → Option ℕ

abbrev pub no_bytes : ByteFile
no_bytes = record { size = 0; at = λ _. none }

abbrev pub is_in : ℕ → ℕ → ℕ → Bool
is_in f_pos n p = leb f_pos p && ltb p (f_pos + n)

-- The file after `n` bytes of the user were written at `f_pos`.
abbrev pub with_bytes : ByteFile → Bytes → ℕ → ℕ → ℕ → ByteFile
with_bytes f user f_pos buf n = record {
  size = max f.size (f_pos + n);
  at = λ p. if is_in f_pos n p then some (user (buf + (p - f_pos))) else f.at p;
}

-- The file after a write of `count` bytes at `f_pos` that failed.
abbrev pub without_bytes : ByteFile → ℕ → ℕ → ByteFile
without_bytes f f_pos count = record f { at = λ p. if is_in f_pos count p then none else f.at p }

-- One call: of `open` with its flags, or of `read` or `write` with the user's memory, the file
-- position, the address and the count. The Boolean is whether the wait for the lock is interrupted.
pub data Call : Type 0 where
  opens : Bool → ℕ → Call
  reads writes : Bool → Bytes → ℕ → ℕ → ℕ → Call

-- The device, the number of requests for memory so far, the file that the calls make, and whether a
-- call divided by zero.
pub record History : Type 0 where
  pub dev : ScullDev
  pub requests : ℕ
  pub file : ByteFile
  pub faulted : Bool

abbrev pub entering : History → Bytes → ℕ → Session
entering h user f_pos = record { dev = h.dev; requests = h.requests; user = user; f_pos = f_pos }

abbrev pub opened : ℕ → Ret → ByteFile → ByteFile
opened flags (ok _) f = if is_write_only flags then no_bytes else f
opened flags (err _) f = f

abbrev pub written_file : ByteFile → Bytes → ℕ → ℕ → ℕ → Ret → ByteFile
written_file f user f_pos buf count (ok n) = with_bytes f user f_pos buf n
written_file f user f_pos buf count (err _) = without_bytes f f_pos count

module _ (k : Kernel) (p : Params) where
  unfoldable pub call : History → Call → History
  call h (opens interrupted flags) =
      let (ret, freed, dev') = scull_open p interrupted flags h.dev in
      record h { dev = dev'; file = opened flags ret h.file }
  call h (reads interrupted user f_pos buf count) =
      elim (scull_read k interrupted (entering h user f_pos) buf count) [
        | none ↦ record h { faulted = true }
        | some (ret, s) ↦ record h { dev = s.dev; requests = s.requests }
      ]
  call h (writes interrupted user f_pos buf count) =
      elim (scull_write k interrupted (entering h user f_pos) buf count) [
        | none ↦ record h { faulted = true }
        | some (ret, s) ↦ record h {
          dev = s.dev;
          requests = s.requests;
          file = written_file h.file user f_pos buf count ret;
        }
      ]

  unfoldable pub run : History → List Call → History
  run h [] = h
  run h (c ∷ cs) = run (call h c) cs

-- Every call ends below the largest file position.
abbrev pub InBounds : Call → Type 0
InBounds (opens interrupted flags) = Unit
InBounds (reads interrupted user f_pos buf count) = f_pos + count < 2 ^ 63
InBounds (writes interrupted user f_pos buf count) = f_pos + count < 2 ^ 63

abbrev pub AllInBounds : List Call → Type 0
AllInBounds [] = Unit
AllInBounds (c ∷ cs) = InBounds c × AllInBounds cs
