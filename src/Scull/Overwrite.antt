-- ===== src/Scull/Overwrite.antt =====
-- What the copy of `scull_write` (scull/main.c) into one quantum does to the bytes of the device.
use native.Mathlib.Decide.{ℕ_discrete}
use ldd3_workshop.Prelude.{
  ℕ, ◌+◌, ◌-◌, ◌≤◌, ◌<◌, ◌≡◌, ◌⊎◌, inl, inr, ap, ◌∙◌, Option, none, some, List, arith, get_or,
  length,
}
use ldd3_workshop.Kernel.{Bytes, Kernel, IsLinux}
use ldd3_workshop.Scull.Device.{Quantum, Qset, ScullDev, Follow}
use ldd3_workshop.Scull.Io.{position, splice}
use ldd3_workshop.Scull.Position.{IsSized, position-add, position_same}
use ldd3_workshop.Scull.Content.{
  quantum_at, byte_in, byte_of, stored, stored_self, stored_same_set, stored_other_set,
}

module _ (k : Kernel) (linux : IsLinux k) (user : Bytes) (buf n off : ℕ) (qu : Quantum) where
  abbrev pub incoming : ℕ × Bytes
  incoming = k.copy_from_user user (λ i. qu.bytes (off + i)) buf n

  abbrev pub overwritten : Quantum
  overwritten = record qu { bytes = splice qu.bytes off incoming.1 }

  overwritten_in : (i : ℕ) → incoming.0 ≡ 0 → i < n → overwritten.bytes (off + i) ≡ user (buf + i)
  overwritten_in i h l =
      let e : off + i - off ≡ i = omega arith in
      ground (arith, ap incoming.1 e, linux.from_copies user (λ j. qu.bytes (off + j)) buf n i h l)

  overwritten_out : (o : ℕ) → (o < off) ⊎ (off + n ≤ o) → overwritten.bytes o ≡ qu.bytes o
  overwritten_out o (inl h) = ground arith
  overwritten_out o (inr h) =
      let e : off + (o - off) ≡ o = omega arith in
      ground (
        arith,
        ap qu.bytes e,
        linux.from_frame user (λ j. qu.bytes (off + j)) buf n (o - off) (omega arith),
      )

-- The chain `c` of the device `dev`, after a write of `n` bytes at `p` that stays within a quantum.
module _ (k : Kernel) (linux : IsLinux k) (dev : ScullDev) (v : IsSized dev) (p n : ℕ)
    (room : n + (position dev p).offset_p ≤ dev.quantum_len) (user : Bytes) (buf : ℕ)
    (c : List Qset) (a : List (Option Quantum)) (qu : Quantum)
    (hi : (position dev p).qset_p < length c) (hj : (position dev p).quantum_p < length a) where
  abbrev pub f : Follow
  f = position dev p

  abbrev pub after : List Qset
  after = stored c f a (overwritten k linux user buf n f.offset_p qu)

  pub overwrite_in :
      (i : ℕ)
      → (incoming k linux user buf n f.offset_p qu).0 ≡ 0
      → i < n
      → byte_of after (position dev (p + i)) ≡ some (user (buf + i))
  overwrite_in i h l =
      rw
        (
          position-add dev v p i (omega arith),
          stored_self c f a (overwritten k linux user buf n f.offset_p qu) hi hj,
        )
        (ap some (overwritten_in k linux user buf n f.offset_p qu i h l))

  -- The array `a` is what the chain holds at the position, or is new.
  pub overwrite_out :
      ((j : ℕ) → quantum_at c f.qset_p j ≡ get_or a j none)
      → ((o b : ℕ) → byte_in (quantum_at c f.qset_p f.quantum_p) o ≡ some b → qu.bytes o ≡ b)
      → (p' b : ℕ) → (p' < p) ⊎ (p + n ≤ p')
      → byte_of c (position dev p') ≡ some b
      → byte_of after (position dev p') ≡ some b
  overwrite_out agrees holds p' b out h = elim (ℕ_discrete f.qset_p i') [
    | no ne ↦ ap (λ q. byte_in q o') (stored_other_set c f a qu' hi hj i' j' ne) ∙ h
    | yes ei ↦ elim (ℕ_discrete f.quantum_p j') [
      | no ne ↦ rw (← ei, stored_same_set c f a qu' hi hj j' ne, ← agrees j', ei) h
      | yes ej ↦
          rw (← ei, ← ej, stored_self c f a qu' hi hj)
            (ap some (
              overwritten_out k linux user buf n f.offset_p qu o' (outside ei ej)
              ∙ holds o' b (rw (ei, ej) h)))
    ]
  ]
    where
      open position dev p' use {qset_p as i', quantum_p as j', offset_p as o'}

      qu' : Quantum
      qu' = overwritten k linux user buf n f.offset_p qu

      outside : f.qset_p ≡ i' → f.quantum_p ≡ j' → (o' < f.offset_p) ⊎ (f.offset_p + n ≤ o')
      outside ei ej = grind (arith, position_same dev v p p' ei ej)
