-- ===== src/Scull/WriteLoop.antt =====
-- A user who writes to a memory device (scull/main.c) until all is written.
use native.Mathlib.Decide.{dec_lt}
use ldd3_workshop.Prelude.{
  ℕ, zero, suc, ◌+◌, ◌-◌, ◌^◌, ◌≤◌, ◌<◌, ◌≡◌, ◌⊎◌, inl, refl, sym, ap, ◌∙◌, false, Option, none,
  some, arith, max, ◌==◌, if◌then◌else◌,
}
use ldd3_workshop.Kernel.{Bytes, ok, err, Kernel, IsLinux}
use ldd3_workshop.Scull.Device.{ScullDev}
use ldd3_workshop.Scull.Io.{Session, scull_write}
use ldd3_workshop.Scull.Position.{IsSized, IsSized-same, position_sum}
use ldd3_workshop.Scull.Content.{byte_at, IsWellFormed}
use ldd3_workshop.Scull.Write.{Wrote}
use ldd3_workshop.Scull.Shape.{scull_write-Keeps}
use ldd3_workshop.Scull.Success.{IsKind, scull_write_total}

-- The loop around `write`, which goes on with what the last call did not take. The first number is a
-- fuel, and `none` a call that fails or a loop that runs out of it.
unfoldable pub write_all : Kernel → ℕ → Session → ℕ → ℕ → Option Session
write_all k zero s buf count = if count == 0 then some s else none
write_all k (suc fuel) s buf count =
    if count == 0 then some s else elim (scull_write k false s buf count) [
      | none ↦ none
      | some (err x, s') ↦ none
      | some (ok n, s') ↦ write_all k fuel s' (buf + n) (count - n)
    ]

-- All `count` bytes of the user at `buf` are written, from the position `f_pos` on.
pub record WroteAll (dev : ScullDev) (user : Bytes) (f_pos buf count : ℕ) (s : Session)
    : Type 0 where
  pub moved : s.f_pos ≡ f_pos + count
  pub grown : s.dev.len ≡ max dev.len (f_pos + count)
  pub written : (i : ℕ) → i < count → byte_at s.dev (f_pos + i) ≡ some (user (buf + i))
  pub kept :
      (p b : ℕ)
      → (p < f_pos) ⊎ (f_pos + count ≤ p)
      → byte_at dev p ≡ some b
      → byte_at s.dev p ≡ some b
  pub same_user : s.user ≡ user
  pub sized : IsSized s.dev
  pub shape : IsWellFormed s.dev

WroteAll-nothing :
    (s : Session) (buf count : ℕ)
    → count ≡ 0
    → IsSized s.dev
    → IsWellFormed s.dev
    → s.f_pos ≤ s.dev.len
    → WroteAll s.dev s.user s.f_pos buf count s
WroteAll-nothing s buf count nothing v w at = record {
  moved = omega arith;
  grown = omega arith;
  written = λ i l. absurd (omega arith);
  kept = λ p b out h. h;
  same_user = refl;
  sized = v;
  shape = w;
}

-- One call, and then the rest.
WroteAll-step :
    (dev : ScullDev) (user : Bytes) (f_pos buf count n : ℕ) (s s' : Session)
    → Wrote dev user f_pos buf count n s
    → n ≤ count
    → WroteAll s.dev s.user s.f_pos (buf + n) (count - n) s'
    → WroteAll dev user f_pos buf count s'
WroteAll-step dev user f_pos buf count n s s' w few rest = record {
  moved = omega (arith, rest.moved, w.moved);
  grown = omega (arith, rest.grown, w.grown, w.moved);
  written = λ i l. elim (dec_lt i n) [
    | yes early ↦ rest.kept (f_pos + i) _ (inl (omega (arith, w.moved))) (w.written i early)
    | no late ↦
        (let at : s.f_pos + (i - n) ≡ f_pos + i = omega (arith, w.moved) in
          let from : buf + n + (i - n) ≡ buf + i = omega arith in
          ap (byte_at s'.dev) (sym at)
          ∙ rest.written (i - n) (omega arith)
          ∙ ap some (ap s.user from ∙ ap (λ (u : Bytes). u (buf + i)) w.same_user))
  ];
  kept = λ p b out h. rest.kept p b (ground (arith, w.moved)) (w.kept p b (ground arith) h);
  same_user = rest.same_user ∙ w.same_user;
  sized = rest.sized;
  shape = rest.shape;
}

-- Where memory is granted and user memory can be read, the loop ends after at most `count` calls,
-- from a position that is not past the end of a well-formed device of sound sizes: all `count` bytes
-- of the user are then in the device, its length covers them, and every other byte is as it was.
pub write_all-WroteAll :
    (k : Kernel) (fuel : ℕ) (s : Session) (buf count : ℕ)
    → IsLinux k
    → IsKind k
    → IsSized s.dev
    → IsWellFormed s.dev
    → s.f_pos ≤ s.dev.len
    → s.f_pos + count < 2 ^ 63
    → count ≤ fuel
    → (s' : Session) × (write_all k fuel s buf count ≡ some s')
      × WroteAll s.dev s.user s.f_pos buf count s'
unfolding write_all
write_all-WroteAll k zero s buf count linux kind v w at bound enough =
    (s, ground arith, WroteAll-nothing s buf count (omega arith) v w at)
write_all-WroteAll k (suc fuel) s buf count linux kind v w at bound enough = elim (dec_lt 0 count) [
  | no nothing ↦ (s, ground arith, WroteAll-nothing s buf count (omega arith) v w at)
  | yes some_left ↦
      (let (n, s₁, e, r) = scull_write_total k s buf count linux kind v w bound in
        let off = position_sum s.dev v s.f_pos in
        let progress : 0 < n = omega (arith, r.taken, off) in
        let few : n ≤ count = omega (arith, r.taken) in
        let v₁ = IsSized-same s.dev s₁.dev r.same_quantum r.same_qset v in
        let w₁ = (scull_write-Keeps k false s buf count (ok n, s₁) w e).shape in
        let (s', e', rest) =
          write_all-WroteAll k fuel s₁ (buf + n) (count - n) linux kind v₁ w₁
            (omega (arith, r.moved, r.grown)) (omega (arith, r.moved)) (omega arith) in
        let go : (count == 0) ≡ false = ground arith in
        (s', rw (go, e) e', WroteAll-step s.dev s.user s.f_pos buf count n s₁ s' r few rest))
]
