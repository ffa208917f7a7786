-- ===== src/Scull/Shape.antt =====
-- The shape of a scull device through `scull_read` and `scull_write` of scull/main.c, on every
-- path, errors included.
use native.Mathlib.Decide.{ℕ_discrete, dec_lt}
use ldd3_workshop.Prelude.{
  ℕ, sub64, ltb, ◌≡◌, refl, sym, ap, ◌∙◌, Bool, true, false, Option, none, some, List, arith,
  Bool-cases, Option-cases, get_or, set, length, replicate, length-replicate, length-set,
  get_or-set_self, get_or-set_ne, if◌then◌else◌, ◌+◌, ◌==◌, set-ge, inl, inr,
}
use ldd3_workshop.Kernel.{Ret, err, erestartsys, Errno, Bytes, Kernel}
use ldd3_workshop.Scull.Device.{Quantum, Qset, zeroed_qset, ScullDev, Follow}
use ldd3_workshop.Scull.Io.{
  Session, Walk, copy_in, write_slot, write_set, write_walked, scull_write, follow_from, follow,
  total_len, position, store_array, splice,
}
use ldd3_workshop.Scull.Walk.{walk_keeps}
use ldd3_workshop.Scull.Content.{IsWellFormed}

-- Storing an array of the right length keeps the lengths.
store_array-IsWellFormed :
    (dev : ScullDev) (flw : Follow) (a : List (Option Quantum))
    → IsWellFormed dev
    → length a ≡ dev.qset_len
    → IsWellFormed (store_array dev flw a)
store_array-IsWellFormed dev flw a w l i b h = elim (dec_lt flw.qset_p (length dev.qset)) [
  | no out ↦ w i b (rw (set-ge dev.qset flw.qset_p q (omega arith)) at h)
  | yes inside ↦ elim (ℕ_discrete flw.qset_p i) [
    | no ne ↦ w i b (rw (get_or-set_ne dev.qset q zeroed_qset ne) at h)
    | yes e ↦
        (let h' : some a ≡ some b =
            ap (λ (x : Qset). x.quanta)
              (sym (get_or-set_self dev.qset flw.qset_p q zeroed_qset inside))
            ∙ (rw (← e) at h) in
          let ab : a ≡ b = cc in rw (← ab) l)
  ]
]
  where
    q : Qset
    q = record { quanta = some a }

-- The device after an operation on a session, with what stays the same in every outcome.
pub record Keeps (quantum_len qset_len : ℕ) (r : Ret × Session) : Type 0 where
  pub shape : IsWellFormed r.1.dev
  pub same_quantum : r.1.dev.quantum_len ≡ quantum_len
  pub same_qset : r.1.dev.qset_len ≡ qset_len

Keeps-if :
    {q l : ℕ} {x y : Ret × Session} (b : Bool)
    → Keeps q l x
    → Keeps q l y
    → Keeps q l (if b then x else y)
Keeps-if true h g = h
Keeps-if false h g = g

module _ (k : Kernel) where
  copy_in-Keeps :
      (t : Session) (flw : Follow) (a : List (Option Quantum)) (qu : Quantum) (buf count : ℕ)
      → IsWellFormed t.dev
      → length a ≡ t.dev.qset_len
      → Keeps t.dev.quantum_len t.dev.qset_len (copy_in k t flw a qu buf count)
  unfolding copy_in
  copy_in-Keeps t flw a qu buf count w l = record {
    shape = λ i b h. shape i b (rw same at h) ∙ sym same_len;
    same_quantum = ground arith;
    same_qset = same_len;
  }
    where
      room : ℕ
      room = sub64 t.dev.quantum_len flw.offset_p

      n : ℕ
      n = if ltb room count then room else count

      new : Bytes
      new = (k.copy_from_user t.user (λ i. qu.bytes (flw.offset_p + i)) buf n).1

      a' : List (Option Quantum)
      a' = set a flw.quantum_p (some (record qu { bytes = splice qu.bytes flw.offset_p new }))

      shape : IsWellFormed (store_array t.dev flw a')
      shape = store_array-IsWellFormed t.dev flw a' w (length-set a flw.quantum_p _ ∙ l)

      same : (copy_in k t flw a qu buf count).1.dev.qset ≡ (store_array t.dev flw a').qset
      same = ground arith

      same_len : (copy_in k t flw a qu buf count).1.dev.qset_len ≡ t.dev.qset_len
      same_len = ground arith

  write_slot-Keeps :
      (t : Session) (flw : Follow) (a : List (Option Quantum)) (buf count : ℕ)
      → IsWellFormed t.dev
      → length a ≡ t.dev.qset_len
      → Keeps t.dev.quantum_len t.dev.qset_len (write_slot k t flw a buf count)
  unfolding write_slot
  write_slot-Keeps t flw a buf count w l = elim (Option-cases (get_or a flw.quantum_p none)) [
    | inr (qu, old) ↦ rw (old, write_slot) (copy_in-Keeps t flw a qu buf count w l)
    | inl new ↦
        rw (new, write_slot)
          (Keeps-if (k.grants t.requests)
            (copy_in-Keeps (record t { requests = t.requests + 1 }) flw a
              (record { request = t.requests; bytes = k.garbage t.requests }) buf count w l)
            (record {
              shape = store_array-IsWellFormed t.dev flw a w l;
              same_quantum = refl;
              same_qset = refl;
            }))
  ]

  write_set-Keeps :
      (t : Session) (flw : Follow) (buf count : ℕ)
      → IsWellFormed t.dev
      → Keeps t.dev.quantum_len t.dev.qset_len
          (write_set k t flw (get_or t.dev.qset flw.qset_p zeroed_qset) buf count)
  unfolding write_set
  write_set-Keeps t flw buf count w =
      elim (Option-cases (get_or t.dev.qset flw.qset_p zeroed_qset).quanta) [
        | inr (a, old) ↦
            rw (old, write_set) (write_slot-Keeps t flw a buf count w (w flw.qset_p a old))
        | inl new ↦
            rw (new, write_set)
              (Keeps-if (k.grants t.requests)
                (write_slot-Keeps (record t { requests = t.requests + 1 }) flw
                  (replicate t.dev.qset_len none) buf count w (length-replicate _ _))
                (record { shape = w; same_quantum = refl; same_qset = refl }))
      ]

  write_walked-Keeps :
      (t : Session) (flw : Follow) (w : Walk) (buf count : ℕ)
      → IsWellFormed t.dev
      → ((i : ℕ) → get_or w.chain i zeroed_qset ≡ get_or t.dev.qset i zeroed_qset)
      → Keeps t.dev.quantum_len t.dev.qset_len (write_walked k t flw w buf count)
  unfolding write_walked
  write_walked-Keeps t flw w buf count wf keeps =
      Keeps-if w.found (write_set-Keeps t' flw buf count wf')
        (record { shape = wf'; same_quantum = refl; same_qset = refl })
    where
      t' : Session
      t' = record t { dev = record t.dev { qset = w.chain }; requests = w.requests }

      wf' : IsWellFormed t'.dev
      wf' i a h = wf i a (ap (λ (q : Qset). q.quanta) (sym (keeps i)) ∙ h)

  -- Whatever `scull_write` returns, an error or a length, each array of the device has one pointer
  -- for each of the `qset_len` quanta, and the two sizes of the device are as before.
  pub scull_write-Keeps :
      (interrupted : Bool) (s : Session) (buf count : ℕ) (r : Ret × Session)
      → IsWellFormed s.dev
      → scull_write k interrupted s buf count ≡ some r
      → Keeps s.dev.quantum_len s.dev.qset_len r
  unfolding scull_write follow
  scull_write-Keeps true s buf count r w e =
      let r_is : ◌≡◌ {A = Ret × Session} (err erestartsys, s) r = ground arith in
      rw (← r_is) (record { shape = w; same_quantum = refl; same_qset = refl })
  scull_write-Keeps false s buf count r w e = elim (Bool-cases (total_len s.dev == 0)) [
    | inl fault ↦ ground arith
    | inr nz ↦
        (let f = position s.dev s.f_pos in
          let walk = follow_from k f.qset_p s.requests s.dev.qset in
          let e' : some (write_walked k s f walk buf count) ≡ some r =
            rw (scull_write, follow, nz) at e in
          let r_is : write_walked k s f walk buf count ≡ r = cc in
          rw (← r_is)
            (write_walked-Keeps s f walk buf count w (walk_keeps k f.qset_p s.requests s.dev.qset)))
  ]

  -- A failed write leaves the file position, the length of the device and user memory alone.
  pub scull_write-err :
      (interrupted : Bool) (s : Session) (buf count : ℕ) (x : Errno) (s' : Session)
      → scull_write k interrupted s buf count ≡ some (err x, s')
      → (s'.f_pos ≡ s.f_pos) × (s'.dev.len ≡ s.dev.len) × (s'.user ≡ s.user)
  unfolding scull_write write_walked write_set write_slot copy_in
  scull_write-err interrupted s buf count x s' e = ground arith
