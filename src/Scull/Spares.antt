-- ===== src/Scull/Spares.antt =====
-- `scull_write` of scull/main.c changes no byte outside the range it is asked to write, on any path.
use native.Mathlib.Decide.{ℕ_discrete}
use ldd3_workshop.Prelude.{
  ℕ, ◌+◌, ◌≤◌, ◌<◌, ◌≡◌, ◌⊎◌, inl, inr, sym, ap, ◌∙◌, Bool, true, false, Option, none, some, List,
  arith, get_or, set, get_or-set_self, get_or-set_ne, get_or-replicate, length, length-replicate,
  replicate, sub64, ltb, if◌then◌else◌, Option-cases, Bool-cases, ◌==◌,
}
use ldd3_workshop.Kernel.{Ret, err, enomem, erestartsys, Kernel, IsLinux}
use ldd3_workshop.Scull.Device.{Quantum, Qset, zeroed_qset, ScullDev}
use ldd3_workshop.Scull.Io.{
  Session, Walk, position, store_array, copy_in, write_slot, write_set, write_walked, scull_write,
  follow_from,
}
use ldd3_workshop.Scull.Walk.{walk_keeps, walk_reaches, follow_sized}
use ldd3_workshop.Scull.Position.{IsSized, position_sum, quantum_len_small}
use ldd3_workshop.Scull.Content.{
  slot, quantum_at, quantum_at-some, quantum_at-none, byte_in, byte_at, byte_at_same, IsWellFormed,
}
use ldd3_workshop.Scull.Overwrite.{overwrite_out}
use ldd3_workshop.Scull.Write.{Agrees, Holds}

-- The bytes of `dev` outside the `count` positions from `f_pos` on are those of the result as well.
pub record Spares (dev : ScullDev) (f_pos count : ℕ) (r : Ret × Session) : Type 0 where
  pub spared :
      (p b : ℕ)
      → (p < f_pos) ⊎ (f_pos + count ≤ p)
      → byte_at dev p ≡ some b
      → byte_at r.1.dev p ≡ some b

Spares-if :
    {dev : ScullDev} {f_pos count : ℕ} {x y : Ret × Session} (b : Bool)
    → Spares dev f_pos count x
    → Spares dev f_pos count y
    → Spares dev f_pos count (if b then x else y)
Spares-if true h g = h
Spares-if false h g = g

-- An array that holds what the chain holds may take its place.
array_same :
    (c : List Qset) (i : ℕ) (a : List (Option Quantum))
    → i < length c
    → ((j : ℕ) → quantum_at c i j ≡ get_or a j none)
    → (i' j : ℕ) → quantum_at (set c i (record { quanta = some a })) i' j ≡ quantum_at c i' j
unfolding quantum_at
array_same c i a inside agrees i' j = elim (ℕ_discrete i i') [
  | no ne ↦
      ap (λ (q : Qset). slot q.quanta j)
        (get_or-set_ne c (record { quanta = some a }) zeroed_qset ne)
  | yes e ↦ rw (← e) (
      ap (λ (q : Qset). slot q.quanta j)
        (get_or-set_self c i (record { quanta = some a }) zeroed_qset inside)
      ∙ sym (agrees j))
]

module _ (k : Kernel) (linux : IsLinux k) where
  store_array-same :
      (t : Session) (a : List (Option Quantum))
      → (position t.dev t.f_pos).qset_p < length t.dev.qset
      → Agrees k linux t a
      → (p : ℕ) → byte_at (store_array t.dev (position t.dev t.f_pos) a) p ≡ byte_at t.dev p
  unfolding byte_at position
  store_array-same t a hi agrees p =
      let f = position t.dev p in
      ap (λ q. byte_in q f.offset_p)
        (array_same t.dev.qset (position t.dev t.f_pos).qset_p a hi agrees f.qset_p f.quantum_p)

  copy_in-Spares :
      (t : Session) (a : List (Option Quantum)) (qu : Quantum) (buf count : ℕ)
      → IsSized t.dev
      → (position t.dev t.f_pos).qset_p < length t.dev.qset
      → length a ≡ t.dev.qset_len
      → Agrees k linux t a
      → Holds k linux t qu
      → Spares t.dev t.f_pos count (copy_in k t (position t.dev t.f_pos) a qu buf count)
  unfolding copy_in byte_at position
  copy_in-Spares t a qu buf count v hi hl agrees holds =
      let off = (position t.dev t.f_pos).offset_p in
      let room = sub64 t.dev.quantum_len off in
      let n = if ltb room count then room else count in
      let sum = position_sum t.dev v t.f_pos in
      let hj : (position t.dev t.f_pos).quantum_p < length a = rw hl sum.1 in
      let fits : n + off ≤ t.dev.quantum_len = ground (arith, quantum_len_small t.dev v, sum) in
      let few : n ≤ count = ground arith in
      let further : (p : ℕ)
          → (p < t.f_pos) ⊎ (t.f_pos + count ≤ p)
          → (p < t.f_pos) ⊎ (t.f_pos + n ≤ p) =
        λ p out. ground arith in
      let kept =
        overwrite_out k linux t.dev v t.f_pos n fits t.user buf t.dev.qset a qu hi hj agrees
          holds in
      Spares-if ((k.copy_from_user t.user (λ i. qu.bytes (off + i)) buf n).0 == 0)
        (record { spared = λ p b out h. kept p b (further p out) h })
        (record { spared = λ p b out h. kept p b (further p out) h })

  Holds-slot :
      (t : Session) (a : List (Option Quantum)) (qu : Quantum)
      → Agrees k linux t a
      → ((q : Quantum) → get_or a (position t.dev t.f_pos).quantum_p none ≡ some q → q ≡ qu)
      → Holds k linux t qu
  Holds-slot t a qu agrees same o b h =
      let there = rw (agrees (position t.dev t.f_pos).quantum_p) at h in
      elim (Option-cases (get_or a (position t.dev t.f_pos).quantum_p none)) [
        | inl new ↦ let e : none ≡ some b = rw new at there in cc
        | inr (q, old) ↦
            (let e : some (q.bytes o) ≡ some b = rw old at there in
              let q_is : q ≡ qu = same q old in
              let moved : q.bytes o ≡ qu.bytes o = ap (λ (x : Quantum). x.bytes o) q_is in cc)
      ]

  write_slot-Spares :
      (t : Session) (a : List (Option Quantum)) (buf count : ℕ)
      → IsSized t.dev
      → (position t.dev t.f_pos).qset_p < length t.dev.qset
      → length a ≡ t.dev.qset_len
      → Agrees k linux t a
      → Spares t.dev t.f_pos count (write_slot k t (position t.dev t.f_pos) a buf count)
  unfolding write_slot
  write_slot-Spares t a buf count v hi hl agrees =
      elim (Option-cases (get_or a (position t.dev t.f_pos).quantum_p none)) [
        | inr (qu, old) ↦
            rw (old, write_slot)
              (copy_in-Spares t a qu buf count v hi hl agrees
                (Holds-slot t a qu agrees (λ q e. let s : some qu ≡ some q = sym old ∙ e in cc)))
        | inl new ↦
            rw (new, write_slot)
              (Spares-if (k.grants t.requests)
                (copy_in-Spares (record t { requests = t.requests + 1 }) a fresh buf count v hi hl
                  agrees
                  (Holds-slot t a fresh agrees (λ q e. let s : none ≡ some q = sym new ∙ e in cc)))
                (record { spared = λ p b out h. store_array-same t a hi agrees p ∙ h }))
      ]
    where
      fresh : Quantum
      fresh = record { request = t.requests; bytes = k.garbage t.requests }

  write_set-Spares :
      (t : Session) (buf count : ℕ)
      → IsSized t.dev
      → IsWellFormed t.dev
      → (position t.dev t.f_pos).qset_p < length t.dev.qset
      → Spares t.dev t.f_pos count (
          write_set k t
            (position t.dev t.f_pos)
            (get_or t.dev.qset (position t.dev t.f_pos).qset_p zeroed_qset)
            buf
            count)
  unfolding write_set
  write_set-Spares t buf count v w hi =
      elim (Option-cases (get_or t.dev.qset i zeroed_qset).quanta) [
        | inr (a, old) ↦
            rw (old, write_set)
              (write_slot-Spares t a buf count v hi (w i a old)
                (λ j. quantum_at-some t.dev.qset i j old))
        | inl new ↦
            rw (new, write_set)
              (Spares-if (k.grants t.requests)
                (write_slot-Spares (record t { requests = t.requests + 1 })
                  (replicate t.dev.qset_len none) buf count v hi (length-replicate _ _)
                  (λ j.
                    quantum_at-none t.dev.qset i j new
                    ∙ sym (get_or-replicate t.dev.qset_len j none)))
                (record { spared = λ p b out h. h }))
      ]
    where
      i : ℕ
      i = (position t.dev t.f_pos).qset_p

  write_walked-Spares :
      (t : Session) (w : Walk) (buf count : ℕ)
      → IsSized t.dev
      → IsWellFormed t.dev
      → ((i : ℕ) → get_or w.chain i zeroed_qset ≡ get_or t.dev.qset i zeroed_qset)
      → (w.found ≡ true → (position t.dev t.f_pos).qset_p < length w.chain)
      → Spares t.dev t.f_pos count (write_walked k t (position t.dev t.f_pos) w buf count)
  unfolding write_walked position
  write_walked-Spares t w buf count v wf keeps reaches = elim (Bool-cases w.found) [
    | inr lost ↦
        (let same : write_walked k t (position t.dev t.f_pos) w buf count ≡ (err enomem, t') =
            ground arith in
          rw same (record { spared = λ p b out h. byte_at_same t.dev w.chain keeps p ∙ h }))
    | inl found ↦
        (let r = write_set-Spares t' buf count v' wf' (reaches found) in
          let same : write_walked k t (position t.dev t.f_pos) w buf count
              ≡ write_set k t' (position t.dev t.f_pos)
                  (get_or w.chain (position t.dev t.f_pos).qset_p zeroed_qset) buf count =
            ground arith in
          rw same (record {
            spared = λ p b out h. r.spared p b out (byte_at_same t.dev w.chain keeps p ∙ h);
          }))
  ]
    where
      t' : Session
      t' = record t { dev = record t.dev { qset = w.chain }; requests = w.requests }

      v' : IsSized t'.dev
      v' = record { quantum_pos = v.quantum_pos; qset_pos = v.qset_pos; fits = v.fits }

      wf' : IsWellFormed t'.dev
      wf' i a h = wf i a (ap (λ (q : Qset). q.quanta) (sym (keeps i)) ∙ h)

-- Whatever `scull_write` returns for a well-formed device of sound sizes, a length or an error, and
-- wherever it fails, it changes no byte of the device outside the `count` positions that it is asked
-- to write.
pub scull_write-Spares :
    (k : Kernel) (interrupted : Bool) (s : Session) (buf count : ℕ) (r : Ret × Session)
    → IsLinux k
    → IsSized s.dev
    → IsWellFormed s.dev
    → scull_write k interrupted s buf count ≡ some r
    → Spares s.dev s.f_pos count r
unfolding scull_write
scull_write-Spares k true s buf count r linux v w e =
    let r_is : ◌≡◌ {A = Ret × Session} (err erestartsys, s) r = ground arith in
    rw (← r_is) (record { spared = λ p b out h. h })
scull_write-Spares k false s buf count r linux v w e =
    let f = position s.dev s.f_pos in
    let walk = follow_from k f.qset_p s.requests s.dev.qset in
    let e' : some (write_walked k s f walk buf count) ≡ some r =
      rw (scull_write, follow_sized k s.dev s.requests s.f_pos v) at e in
    let r_is : write_walked k s f walk buf count ≡ r = cc in
    rw (← r_is) (
      write_walked-Spares k linux s walk buf count v w (walk_keeps k f.qset_p s.requests s.dev.qset)
        (walk_reaches k f.qset_p s.requests s.dev.qset))
