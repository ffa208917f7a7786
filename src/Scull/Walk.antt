-- ===== src/Scull/Walk.antt =====
-- The walk of `__scull_follow` of scull/main.c along the chain of sets.
use native.Mathlib.Nat.{mul-pos}
use native.Mathlib.Decide.{dec_lt}
use ldd3_workshop.Prelude.{
  ℕ, zero, suc, ◌+◌, ◌≤◌, ◌<◌, ◌≡◌, refl, true, false, some, List, [], ◌∷◌, arith, get_or,
  get_or-ge, length,
}
use ldd3_workshop.Kernel.{Kernel}
use ldd3_workshop.Scull.Device.{Qset, zeroed_qset, ScullDev}
use ldd3_workshop.Scull.Io.{follow_loop, follow_from, follow, position, total_len}
use ldd3_workshop.Scull.Position.{IsSized, total_len-exact}

zeroed_only : (i : ℕ) → get_or (zeroed_qset ∷ []) i zeroed_qset ≡ zeroed_qset
zeroed_only zero = refl
zeroed_only (suc i) = refl

module _ (k : Kernel) where
  -- The walk only adds sets that hold nothing.
  loop_keeps :
      (n r : ℕ) (q : Qset) (next : List Qset) (i : ℕ)
      → get_or (follow_loop k n r q next).chain i zeroed_qset ≡ get_or (q ∷ next) i zeroed_qset
  unfolding follow_loop
  loop_keeps zero r q next i = refl
  loop_keeps (suc n) r q [] zero = ground arith
  loop_keeps (suc n) r q [] (suc i) = ground (arith, loop_keeps n (r + 1) zeroed_qset [] i)
  loop_keeps (suc n) r q (q' ∷ next) zero = refl
  loop_keeps (suc n) r q (q' ∷ next) (suc i) = loop_keeps n r q' next i

  loop_reaches :
      (n r : ℕ) (q : Qset) (next : List Qset)
      → (follow_loop k n r q next).found ≡ true
      → n < length (follow_loop k n r q next).chain
  unfolding follow_loop
  loop_reaches zero r q next h = omega arith
  loop_reaches (suc n) r q [] h = ground (arith, loop_reaches n (r + 1) zeroed_qset [])
  loop_reaches (suc n) r q (q' ∷ next) h = omega (arith, loop_reaches n r q' next h)

  loop_found :
      ((j : ℕ) → k.grants j ≡ true)
      → (n r : ℕ) (q : Qset) (next : List Qset) → (follow_loop k n r q next).found ≡ true
  unfolding follow_loop
  loop_found g zero r q next = refl
  loop_found g (suc n) r q [] = ground (arith, g r, loop_found g n (r + 1) zeroed_qset [])
  loop_found g (suc n) r q (q' ∷ next) = loop_found g n r q' next

  loop_short :
      (n r : ℕ) (q : Qset) (next : List Qset)
      → n ≤ length next
      → follow_loop k n r q next ≡ record { chain = q ∷ next; requests = r; found = true }
  unfolding follow_loop
  loop_short zero r q next h = refl
  loop_short (suc n) r q [] h = absurd (omega arith)
  loop_short (suc n) r q (q' ∷ next) h = rw (loop_short n r q' next (omega arith))

  pub walk_keeps :
      (n r : ℕ) (c : List Qset) (i : ℕ)
      → get_or (follow_from k n r c).chain i zeroed_qset ≡ get_or c i zeroed_qset
  unfolding follow_from
  walk_keeps n r [] i = ground (arith, loop_keeps n (r + 1) zeroed_qset [] i, zeroed_only i)
  walk_keeps n r (q ∷ next) i = loop_keeps n r q next i

  pub walk_reaches :
      (n r : ℕ) (c : List Qset)
      → (follow_from k n r c).found ≡ true
      → n < length (follow_from k n r c).chain
  unfolding follow_from
  walk_reaches n r [] h = ground (arith, loop_reaches n (r + 1) zeroed_qset [])
  walk_reaches n r (q ∷ next) h = loop_reaches n r q next h

  pub walk_found :
      ((j : ℕ) → k.grants j ≡ true) → (n r : ℕ) (c : List Qset) → (follow_from k n r c).found ≡ true
  unfolding follow_from
  walk_found g n r [] = ground (arith, g r, loop_found g n (r + 1) zeroed_qset [])
  walk_found g n r (q ∷ next) = loop_found g n r q next

  -- Where the chain is long enough nothing is allocated.
  pub walk_short :
      (n r : ℕ) (c : List Qset)
      → n < length c
      → follow_from k n r c ≡ record { chain = c; requests = r; found = true }
  unfolding follow_from
  walk_short n r [] h = absurd (omega arith)
  walk_short n r (q ∷ next) h = loop_short n r q next (omega arith)

  -- With sound sizes there is no division by zero.
  pub follow_sized :
      (dev : ScullDev) (r p : ℕ)
      → IsSized dev
      → follow k dev r p ≡ some (position dev p, follow_from k (position dev p).qset_p r dev.qset)
  unfolding follow
  follow_sized dev r p v =
      let pos : 0 < total_len dev = rw (total_len-exact dev v) (mul-pos v.quantum_pos v.qset_pos) in
      ground arith

  -- The walk fails only on its way to a set that is not there yet.
  pub walk_lost :
      (n r : ℕ) (c : List Qset)
      → (follow_from k n r c).found ≡ false
      → get_or c n zeroed_qset ≡ zeroed_qset
  walk_lost n r c h = elim (dec_lt n (length c)) [
    | yes l ↦ let found : true ≡ false = rw (walk_short n r c l) at h in cc
    | no l ↦ get_or-ge c n zeroed_qset (omega arith)
  ]
