-- ===== src/Scull/ReadLoop.antt =====
-- A user who reads from a memory device (scull/main.c) until all is read.
use native.Mathlib.Nat.{add-zero}
use native.Mathlib.Decide.{dec_lt}
use ldd3_workshop.Prelude.{
  ℕ, zero, suc, ◌+◌, ◌-◌, ◌^◌, ◌≤◌, ◌<◌, ◌≡◌, ◌⊎◌, inl, inr, refl, sym, ap, ◌∙◌, true, false,
  Option, none, some, arith, leb, ltb, get_or, ◌==◌, if◌then◌else◌, sub64, add64, Bool-cases,
  Option-cases,
}
use ldd3_workshop.Kernel.{Bytes, ok, err, Kernel, IsLinux}
use ldd3_workshop.Scull.Device.{Quantum, Qset, ScullDev, Follow}
use ldd3_workshop.Scull.Io.{
  Session, Walk, position, follow_from, copy_out, read_set, read_walked, scull_read,
}
use ldd3_workshop.Scull.Position.{IsSized, IsSized-same, position_sum}
use ldd3_workshop.Scull.Walk.{follow_sized}
use ldd3_workshop.Scull.Content.{byte_at, IsWellFormed}
use ldd3_workshop.Scull.Read.{Read, scull_read-Read}
use ldd3_workshop.Scull.AsFile.{SameContent, read-SameContent}
use ldd3_workshop.Scull.WriteLoop.{write_all, write_all-WroteAll}
use ldd3_workshop.Scull.Success.{IsKind, succeeds, succeeds_inv}

-- All that the kernel writes for the program can be written.
abbrev pub IsWritable : Kernel → Type 0
IsWritable k =
    (user : Bytes) (to : ℕ) (from : Bytes) (n : ℕ) → (k.copy_to_user user to from n).0 ≡ 0

-- The loop around `read`, which goes on until all is read or a call returns 0.
unfoldable pub read_all : Kernel → ℕ → Session → ℕ → ℕ → Option Session
read_all k zero s buf count = if count == 0 then some s else none
read_all k (suc fuel) s buf count =
    if count == 0 then some s else elim (scull_read k false s buf count) [
      | none ↦ none
      | some (err x, s') ↦ none
      | some (ok n, s') ↦ if n == 0 then some s' else read_all k fuel s' (buf + n) (count - n)
    ]

-- The `count` bytes of the device from `f_pos` on are at `buf`.
pub record ReadAll (dev : ScullDev) (user : Bytes) (f_pos buf count : ℕ) (s : Session)
    : Type 0 where
  pub moved : s.f_pos ≡ f_pos + count
  pub copied : (i : ℕ) → i < count → byte_at dev (f_pos + i) ≡ some (s.user (buf + i))
  pub untouched : (x : ℕ) → (x < buf) ⊎ (buf + count ≤ x) → s.user x ≡ user x
  pub same_bytes : (p : ℕ) → byte_at s.dev p ≡ byte_at dev p

module _ (k : Kernel) (writable : IsWritable k) where
  copy_out-succeeds :
      (t : Session) (flw : Follow) (qu : Quantum) (buf count : ℕ)
      → succeeds (copy_out k t flw qu buf count) ≡ true
  unfolding copy_out
  copy_out-succeeds t flw qu buf count =
      let room = sub64 t.dev.quantum_len flw.offset_p in
      let n = if ltb room count then room else count in
      ground (arith, writable t.user buf (λ i. qu.bytes (flw.offset_p + i)) n)

  read_set-succeeds :
      (t : Session) (flw : Follow) (q : Qset) (buf count : ℕ)
      → succeeds (read_set k t flw q buf count) ≡ true
  unfolding read_set
  read_set-succeeds t flw q buf count = elim (Option-cases q.quanta) [
    | inl hole ↦ rw (hole, read_set) refl
    | inr (a, there) ↦ elim (Option-cases (get_or a flw.quantum_p none)) [
      | inl hole ↦ rw (there, hole, read_set) refl
      | inr (qu, old) ↦ rw (there, old, read_set) (copy_out-succeeds t flw qu buf count)
    ]
  ]

  read_walked-succeeds :
      (t : Session) (flw : Follow) (w : Walk) (buf count : ℕ)
      → succeeds (read_walked k t flw w buf count) ≡ true
  unfolding read_walked
  read_walked-succeeds t flw w buf count = elim (Bool-cases w.found) [
    | inl found ↦ rw (found, read_walked) (read_set-succeeds _ flw _ buf count)
    | inr failed ↦ rw (failed, read_walked) refl
  ]

  read_returns :
      (s : Session) (buf count : ℕ)
      → IsSized s.dev
      → (n : ℕ) × (s' : Session) × (scull_read k false s buf count ≡ some (ok n, s'))
  unfolding scull_read
  read_returns s buf count v = elim (Bool-cases (leb s.dev.len s.f_pos)) [
    | inl end ↦ (0, s, rw end refl)
    | inr inside ↦
        (let f = position s.dev s.f_pos in
          let w = follow_from k f.qset_p s.requests s.dev.qset in
          let count' =
            if ltb s.dev.len (add64 s.f_pos count) then sub64 s.dev.len s.f_pos else count in
          let r = read_walked k s f w buf count' in
          let (n, s', e) = succeeds_inv r (read_walked-succeeds s f w buf count') in
          (n, s', rw (inside, follow_sized k s.dev s.requests s.f_pos v) (ap some e)))
  ]

-- Every byte that is to be read is there.
abbrev pub IsPresent : ScullDev → ℕ → ℕ → Type 0
IsPresent dev f_pos count = (i : ℕ) → i < count → (b : ℕ) × (byte_at dev (f_pos + i) ≡ some b)

ReadAll-nothing :
    (s : Session) (buf count : ℕ) → count ≡ 0 → ReadAll s.dev s.user s.f_pos buf count s
ReadAll-nothing s buf count nothing = record {
  moved = omega arith;
  copied = λ i l. absurd (omega arith);
  untouched = λ x out. refl;
  same_bytes = λ p. refl;
}

-- One call, and then the rest.
ReadAll-step :
    (dev : ScullDev) (user : Bytes) (f_pos buf count n : ℕ) (s s' : Session)
    → Read dev user f_pos buf count n s
    → n ≤ count
    → ReadAll s.dev s.user s.f_pos (buf + n) (count - n) s'
    → ReadAll dev user f_pos buf count s'
ReadAll-step dev user f_pos buf count n s s' r few rest = record {
  moved = omega (arith, rest.moved, r.gave.moved);
  copied = λ i l. elim (dec_lt i n) [
    | yes early ↦
        r.gave.copied i early ∙ ap some (sym (rest.untouched (buf + i) (inl (omega arith))))
    | no late ↦
        (let at : s.f_pos + (i - n) ≡ f_pos + i = omega (arith, r.gave.moved) in
          let to : buf + n + (i - n) ≡ buf + i = omega arith in
          sym (r.gave.same_bytes (f_pos + i))
          ∙ ap (byte_at s.dev) (sym at)
          ∙ rest.copied (i - n) (omega arith)
          ∙ ap (λ a. some (s'.user a)) to)
  ];
  untouched = λ x out. rest.untouched x (ground arith) ∙ r.gave.untouched x (ground arith);
  same_bytes = λ p. rest.same_bytes p ∙ r.gave.same_bytes p;
}

read_keeps_sizes :
    (k : Kernel) (s : Session) (buf count n : ℕ) (s' : Session)
    → IsSized s.dev
    → scull_read k false s buf count ≡ some (ok n, s')
    → IsSized s'.dev
read_keeps_sizes k s buf count n s' v e =
    let (r, e', c) = read-SameContent k false s buf count v in
    let same : some r ≡ some (ok n, s') = sym e' ∙ e in
    let r_is : r ≡ (ok n, s') = cc in
    let c' : SameContent s.dev s'.dev = rw r_is at c in
    IsSized-same s.dev s'.dev c'.same_quantum c'.same_qset v

pub read_all-ReadAll :
    (k : Kernel) (fuel : ℕ) (s : Session) (buf count : ℕ)
    → IsLinux k
    → IsWritable k
    → IsSized s.dev
    → s.dev.len < 2 ^ 63
    → s.f_pos + count ≤ s.dev.len
    → IsPresent s.dev s.f_pos count
    → count ≤ fuel
    → (s' : Session) × (read_all k fuel s buf count ≡ some s')
      × ReadAll s.dev s.user s.f_pos buf count s'
unfolding read_all
read_all-ReadAll k zero s buf count linux writable v small inside there enough =
    (s, ground arith, ReadAll-nothing s buf count (omega arith))
read_all-ReadAll k (suc fuel) s buf count linux writable v small inside there enough =
    elim (dec_lt 0 count) [
      | no nothing ↦ (s, ground arith, ReadAll-nothing s buf count (omega arith))
      | yes some_left ↦
          (let (n, s₁, e) = read_returns k writable s buf count v in
            let r = scull_read-Read k s buf count n s₁ linux v small (omega arith) e in
            let (b, at) = there 0 some_left in
            let here : byte_at s.dev s.f_pos ≡ some b =
              ap (byte_at s.dev) (sym (add-zero s.f_pos)) ∙ at in
            let progress : 0 < n = omega (arith, r.full b here, position_sum s.dev v s.f_pos) in
            let few : n ≤ count = omega (arith, r.at_most) in
            let there₁ : IsPresent s₁.dev s₁.f_pos (count - n) = λ i l.
              let (b', at') = there (n + i) (omega arith) in
              let place : s₁.f_pos + i ≡ s.f_pos + (n + i) = omega (arith, r.gave.moved) in
              (b', ap (byte_at s₁.dev) place ∙ r.gave.same_bytes (s.f_pos + (n + i)) ∙ at') in
            let (s', e', rest) =
              read_all-ReadAll k fuel s₁ (buf + n) (count - n) linux writable
                (read_keeps_sizes k s buf count n s₁ v e) (omega (arith, r.gave.same_len))
                (omega (arith, r.gave.same_len, r.gave.moved)) there₁ (omega arith) in
            let go : (count == 0) ≡ false = ground arith in
            let more : (n == 0) ≡ false = ground arith in
            (
              s',
              rw (go, e, more) e',
              ReadAll-step s.dev s.user s.f_pos buf count n s₁ s' r few rest,
            ))
    ]

-- A user copies a file to a memory device, and another copies it back, both in a loop that goes on
-- until all is done. Where memory is granted and the memory of both users can be read and written,
-- both loops end after at most `count` calls, from a position that is not past the end of a
-- well-formed device of sound sizes, and the second user has the bytes of the first.
pub read_all-write_all :
    (k : Kernel) (s : Session) (user : Bytes) (buf buf' count : ℕ)
    → IsLinux k
    → IsKind k
    → IsWritable k
    → IsSized s.dev
    → IsWellFormed s.dev
    → s.dev.len < 2 ^ 63
    → s.f_pos ≤ s.dev.len
    → s.f_pos + count < 2 ^ 63
    → (s₁ : Session) × (s₂ : Session) × (write_all k count s buf count ≡ some s₁)
      × (read_all k count (record s₁ { user = user; f_pos = s.f_pos }) buf' count ≡ some s₂)
      × ((i : ℕ) → i < count → s₂.user (buf' + i) ≡ s.user (buf + i))
read_all-write_all k s user buf buf' count linux kind writable v w small at bound =
    let (s₁, e₁, wrote) =
      write_all-WroteAll k count s buf count linux kind v w at bound (omega arith) in
    let (s₂, e₂, gave) =
      read_all-ReadAll k count (record s₁ { user = user; f_pos = s.f_pos }) buf' count linux
        writable wrote.sized (omega (arith, wrote.grown)) (omega (arith, wrote.grown))
        (λ i l. (s.user (buf + i), wrote.written i l)) (omega arith) in
    (
      s₁,
      s₂,
      e₁,
      e₂,
      λ i l.
          let same : some (s₂.user (buf' + i)) ≡ some (s.user (buf + i)) =
            sym (gave.copied i l) ∙ wrote.written i l in
          cc,
    )
