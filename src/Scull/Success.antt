-- ===== src/Scull/Success.antt =====
-- When `scull_write` of scull/main.c goes through, when it faults, and what is read back.
use native.Mathlib.Decide.{dec_lt}
use native.Mathlib.Nat.{add-zero}
use ldd3_workshop.Prelude.{
  ℕ, ◌+◌, ◌^◌, ◌<◌, ◌≡◌, ◌⊎◌, inl, inr, refl, sym, ap, ◌∙◌, Bool, true, false, Option, none, some,
  List, arith, get_or, sub64, ltb, if◌then◌else◌, Option-cases,
}
use ldd3_workshop.Kernel.{Bytes, Ret, ok, err, Kernel, IsLinux}
use ldd3_workshop.Scull.Device.{Quantum, Qset, Follow, Params, trim}
use ldd3_workshop.Scull.Io.{
  Session, position, copy_in, write_slot, write_set, write_walked, scull_write, scull_read,
  follow_from, follow, total_len,
}
use ldd3_workshop.Scull.Walk.{walk_found, follow_sized}
use ldd3_workshop.Scull.Position.{IsSized, IsSized-same, position_same_sizes, position_sum}
use ldd3_workshop.Scull.Content.{byte_at, IsWellFormed}
use ldd3_workshop.Scull.Write.{Wrote, scull_write-Wrote}
use ldd3_workshop.Scull.Read.{scull_read-Read}

abbrev pub succeeds : Ret × Session → Bool
succeeds (ok n, s) = true
succeeds (err e, s) = false

pub succeeds_inv :
    (r : Ret × Session) → succeeds r ≡ true → (n : ℕ) × (s : Session) × (r ≡ (ok n, s))
succeeds_inv (ok n, s) h = (n, s, refl)
succeeds_inv (err e, s) h = cc

-- Memory is never short, and all that the program passes can be read.
pub record IsKind (k : Kernel) : Type 0 where
  pub granted : (n : ℕ) → k.grants n ≡ true
  pub readable : (user to : Bytes) (from n : ℕ) → (k.copy_from_user user to from n).0 ≡ 0

module _ (k : Kernel) (kind : IsKind k) where
  copy_in-succeeds :
      (t : Session) (flw : Follow) (a : List (Option Quantum)) (qu : Quantum) (buf count : ℕ)
      → succeeds (copy_in k t flw a qu buf count) ≡ true
  unfolding copy_in
  copy_in-succeeds t flw a qu buf count =
      ground (arith, kind.readable t.user (λ i. qu.bytes (flw.offset_p + i)) buf n)
    where
      n : ℕ
      n = let room = sub64 t.dev.quantum_len flw.offset_p in if ltb room count then room else count

  write_slot-succeeds :
      (t : Session) (flw : Follow) (a : List (Option Quantum)) (buf count : ℕ)
      → succeeds (write_slot k t flw a buf count) ≡ true
  unfolding write_slot
  write_slot-succeeds t flw a buf count = elim (Option-cases (get_or a flw.quantum_p none)) [
    | inr (qu, old) ↦ rw (old, write_slot) (copy_in-succeeds t flw a qu buf count)
    | inl new ↦ rw (new, write_slot, kind.granted t.requests) (copy_in-succeeds _ _ _ _ _ _)
  ]

  write_set-succeeds :
      (t : Session) (flw : Follow) (q : Qset) (buf count : ℕ)
      → succeeds (write_set k t flw q buf count) ≡ true
  unfolding write_set
  write_set-succeeds t flw q buf count = elim (Option-cases q.quanta) [
    | inr (a, old) ↦ rw (old, write_set) (write_slot-succeeds t flw a buf count)
    | inl new ↦ rw (new, write_set, kind.granted t.requests) (write_slot-succeeds _ _ _ _ _)
  ]

  write_succeeds :
      (s : Session) (buf count : ℕ)
      → IsSized s.dev
      → (n : ℕ) × (s' : Session) × (scull_write k false s buf count ≡ some (ok n, s'))
  unfolding scull_write write_walked
  write_succeeds s buf count v =
      let f = position s.dev s.f_pos in
      let w = follow_from k f.qset_p s.requests s.dev.qset in
      let r = write_walked k s f w buf count in
      let fine : succeeds r ≡ true =
        rw (walk_found k kind.granted f.qset_p s.requests s.dev.qset)
          (write_set-succeeds _ f _ buf count) in
      let (n, s', e) = succeeds_inv r fine in
      (n, s', rw (follow_sized k s.dev s.requests s.f_pos v) (ap some e))

-- Where every request for memory is granted and all user memory can be read, a write to a
-- well-formed device of sound sizes returns a length, and has done what `Wrote` says of it.
pub scull_write_total :
    (k : Kernel) (s : Session) (buf count : ℕ)
    → IsLinux k
    → IsKind k
    → IsSized s.dev
    → IsWellFormed s.dev
    → s.f_pos + count < 2 ^ 63
    → (n : ℕ) × (s' : Session) × (scull_write k false s buf count ≡ some (ok n, s'))
      × Wrote s.dev s.user s.f_pos buf count n s'
scull_write_total k s buf count linux kind v w b =
    let (n, s', e) = write_succeeds k kind s buf count v in
    (n, s', e, scull_write-Wrote k s buf count n s' linux v w b e)

-- A device that was emptied while one of the two module parameters was 0 has a size of 0, and each
-- write to it that gets the lock divides by zero.
pub zero_size_faults :
    (k : Kernel) (p : Params) (s : Session) (buf count : ℕ)
    → (p.scull_quantum ≡ 0) ⊎ (p.scull_qset ≡ 0)
    → scull_write k false (record s { dev = (trim p s.dev).1 }) buf count ≡ none
unfolding scull_write follow total_len trim
zero_size_faults k p s buf count (inl h) = ground arith
zero_size_faults k p s buf count (inr h) = ground arith

-- What was written is read back: after a write of `n` bytes at the position `f_pos`, a read of as
-- many bytes from the same position that returns a length returns `n`, and puts the same `n` bytes
-- in user memory.
pub read-write :
    (k : Kernel) (s : Session) (buf buf' count n m : ℕ) (s₁ s₂ : Session)
    → IsLinux k
    → IsSized s.dev
    → IsWellFormed s.dev
    → s.dev.len < 2 ^ 63
    → s.f_pos + count < 2 ^ 63
    → scull_write k false s buf count ≡ some (ok n, s₁)
    → scull_read k false (record s₁ { f_pos = s.f_pos }) buf' count ≡ some (ok m, s₂)
    → (m ≡ n) × ((i : ℕ) → i < n → s₂.user (buf' + i) ≡ s.user (buf + i))
read-write k s buf buf' count n m s₁ s₂ linux v w l b ew er =
    let wr = scull_write-Wrote k s buf count n s₁ linux v w b ew in
    let v' : IsSized s₁.dev = IsSized-same s.dev s₁.dev wr.same_quantum wr.same_qset v in
    let rd =
      scull_read-Read k (record s₁ { f_pos = s.f_pos }) buf' count m s₂ linux v' (omega arith) b
        er in
    let same : position s₁.dev s.f_pos ≡ position s.dev s.f_pos =
      position_same_sizes s.dev s₁.dev wr.same_quantum wr.same_qset s.f_pos in
    let all : m ≡ n = elim (dec_lt 0 n) [
      | yes pos ↦
          (let at : byte_at s₁.dev s.f_pos ≡ some (s.user (buf + 0)) =
              rw add-zero at (wr.written 0 pos) in
            omega (
              arith,
              rd.full (s.user (buf + 0)) at,
              wr.taken,
              wr.grown,
              wr.same_quantum,
              ap (λ (f : Follow). f.offset_p) same,
            ))
      | no zero_n ↦ omega (arith, rd.at_most, wr.taken, position_sum s.dev v s.f_pos)
    ] in
    (
      all,
      λ i h.
          let e : some (s.user (buf + i)) ≡ some (s₂.user (buf' + i)) =
            sym (wr.written i h) ∙ rd.gave.copied i (omega arith) in
          cc,
    )
