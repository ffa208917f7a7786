-- ===== src/Scull/Refine.antt =====
-- What the calls on a memory device (scull/main.c) amount to, in whatever order they come.
use ldd3_workshop.Prelude.{
  ℕ, ◌+◌, ◌-◌, ◌^◌, ◌≤◌, ◌<◌, ◌≡◌, inl, inr, sym, ◌∙◌, Bool, true, false, Option, some, List, [],
  ◌∷◌, arith, min, Bool-cases,
}
use ldd3_workshop.Kernel.{Bytes, Ret, ok, err, erestartsys, Kernel, IsLinux}
use ldd3_workshop.Scull.Device.{Params, is_write_only, scull_open, trim}
use ldd3_workshop.Scull.Io.{Session, scull_read, scull_write}
use ldd3_workshop.Scull.Write.{scull_write-Wrote}
use ldd3_workshop.Scull.Read.{scull_read-Read}
use ldd3_workshop.Scull.Shape.{scull_write-Keeps, scull_write-err}
use ldd3_workshop.Scull.Spares.{scull_write-Spares}
use ldd3_workshop.Scull.History.{
  no_bytes, written_file, Call, opens, reads, writes, History, entering, call, run, InBounds,
  AllInBounds,
}
use ldd3_workshop.Scull.AsFile.{
  IsSound, IsFile, SameContent-IsFile, emptied-IsFile, Wrote-IsFile, Spares-IsFile,
  read-SameContent, write_returns,
}

module _ (k : Kernel) (p : Params) (linux : IsLinux k) (sound : IsSound p) where
  opens-IsFile :
      (h : History) (interrupted : Bool) (flags : ℕ)
      → IsFile h
      → IsFile (call k p h (opens interrupted flags))
  unfolding call scull_open
  opens-IsFile h interrupted flags i = elim (Bool-cases (is_write_only flags)) [
    | inr other ↦ (let same : call k p h (opens interrupted flags) ≡ h = ground arith in rw same i)
    | inl empties ↦ elim (Bool-cases interrupted) [
      | inl signal ↦
          (let same : call k p h (opens interrupted flags) ≡ h = ground arith in rw same i)
      | inr locked ↦
          (let same : call k p h (opens interrupted flags)
                ≡ record h { dev = (trim p h.dev).1; file = no_bytes } =
              ground arith in
            rw same (emptied-IsFile p h sound i.no_fault))
    ]
  ]

  reads-IsFile :
      (h : History) (interrupted : Bool) (user : Bytes) (f_pos buf count : ℕ)
      → IsFile h
      → IsFile (call k p h (reads interrupted user f_pos buf count))
  unfolding call
  reads-IsFile h interrupted user f_pos buf count i =
      let (r, e, c) = read-SameContent k interrupted (entering h user f_pos) buf count i.sized in
      rw (e, call) (SameContent-IsFile h r.1.dev r.1.requests i c)

  -- How a write that returned goes into the history.
  returned-IsFile :
      (h : History) (interrupted : Bool) (user : Bytes) (f_pos buf count : ℕ) (r : Ret × Session)
      → IsFile h
      → f_pos + count < 2 ^ 63
      → scull_write k interrupted (entering h user f_pos) buf count ≡ some r
      → IsFile (record h {
        dev = r.1.dev;
        requests = r.1.requests;
        file = written_file h.file user f_pos buf count r.0;
      })
  unfolding scull_write
  returned-IsFile h interrupted user f_pos buf count (err x, s) i bound e =
      let s₀ = entering h user f_pos in
      Spares-IsFile h f_pos count x s i (scull_write-err k interrupted s₀ buf count x s e).1
        (scull_write-Keeps k interrupted s₀ buf count (err x, s) i.shape e)
        (scull_write-Spares k interrupted s₀ buf count (err x, s) linux i.sized i.shape e)
  returned-IsFile h true user f_pos buf count (ok n, s) i bound e =
      let e' : ◌≡◌ {A = Option (Ret × Session)} (some (err erestartsys, entering h user f_pos))
          (some (ok n, s)) =
        e in
      let same : err erestartsys ≡ ok n = ground arith in cc
  returned-IsFile h false user f_pos buf count (ok n, s) i bound e =
      let s₀ = entering h user f_pos in
      let keeps = scull_write-Keeps k false s₀ buf count (ok n, s) i.shape e in
      Wrote-IsFile h user f_pos buf count n s i bound keeps.shape
        (scull_write-Wrote k s₀ buf count n s linux i.sized i.shape bound e)

  writes-IsFile :
      (h : History) (interrupted : Bool) (user : Bytes) (f_pos buf count : ℕ)
      → IsFile h
      → f_pos + count < 2 ^ 63
      → IsFile (call k p h (writes interrupted user f_pos buf count))
  unfolding call
  writes-IsFile h interrupted user f_pos buf count i bound =
      let (r, e) = write_returns k interrupted (entering h user f_pos) buf count i.sized in
      rw (e, call) (returned-IsFile h interrupted user f_pos buf count r i bound e)

  pub call-IsFile : (h : History) (c : Call) → IsFile h → InBounds c → IsFile (call k p h c)
  call-IsFile h (opens interrupted flags) i bound = opens-IsFile h interrupted flags i
  call-IsFile h (reads interrupted user f_pos buf count) i bound =
      reads-IsFile h interrupted user f_pos buf count i
  call-IsFile h (writes interrupted user f_pos buf count) i bound =
      writes-IsFile h interrupted user f_pos buf count i bound

  runs-IsFile : (h : History) (cs : List Call) → IsFile h → AllInBounds cs → IsFile (run k p h cs)
  unfolding run
  runs-IsFile h [] i bounds = i
  runs-IsFile h (c ∷ cs) i (here, there) =
      runs-IsFile (call k p h c) cs (call-IsFile h c i here) there

-- Whatever calls of `open`, `read` and `write` come, in any order and at any positions below 2 ^ 63,
-- failures included, on a device that holds a file, with module parameters that are not 0 and whose
-- product is below 2 ^ 63: the device stays sound, no call divides by zero, and the device holds the file that the calls make, where a successful write puts its
-- bytes, a failed one loses at most those it was to write, and opening for writing only empties the
-- file. A read after these calls that returns `n` gives bytes of the file: `n` of them at most, none
-- past its end, and at each position where the file has a byte that byte.
pub run-IsFile :
    (k : Kernel) (p : Params) (h : History) (cs : List Call)
    → IsLinux k
    → IsSound p
    → IsFile h
    → AllInBounds cs
    → let h' = run k p h cs in
      IsFile h'
      × ((user : Bytes) (f_pos buf count n : ℕ) (s : Session)
          → f_pos + count < 2 ^ 63
          → scull_read k false (entering h' user f_pos) buf count ≡ some (ok n, s)
          → (n ≤ min count (h'.file.size - f_pos))
            × ((i b : ℕ) → i < n → h'.file.at (f_pos + i) ≡ some b → s.user (buf + i) ≡ b))
run-IsFile k p h cs linux sound i bounds =
    let i' = runs-IsFile k p linux sound h cs i bounds in
    (
      i',
      λ user f_pos buf count n s bound e.
          let h' = run k p h cs in
          let r =
            scull_read-Read k (entering h' user f_pos) buf count n s linux i'.sized i'.small bound
              e in
          (
            omega (arith, r.at_most, i'.same_len),
            λ j b l at.
                let same : some b ≡ some (s.user (buf + j)) =
                  sym (i'.holds (f_pos + j) b at) ∙ r.gave.copied j l in
                cc,
          ),
    )
