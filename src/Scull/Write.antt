-- ===== src/Scull/Write.antt =====
-- `scull_write` of scull/main.c: which bytes of the device change, and how far the write goes.
use ldd3_workshop.Prelude.{
  ℕ, ◌+◌, ◌-◌, ◌^◌, ◌≤◌, ◌<◌, ◌≡◌, ◌⊎◌, refl, sym, ap, ◌∙◌, true, false, Option, none, some, List,
  arith, min, max, get_or, length, sub64, ltb, if◌then◌else◌, Bool-cases, Option-cases, inl, inr,
  replicate, get_or-replicate, length-replicate,
}
use ldd3_workshop.Kernel.{Bytes, ok, Kernel, IsLinux}
use ldd3_workshop.Scull.Device.{Quantum, Qset, zeroed_qset, ScullDev}
use ldd3_workshop.Scull.Io.{
  Session, Walk, position, copy_in, write_slot, write_set, write_walked, scull_write, follow_from,
}
use ldd3_workshop.Scull.Walk.{walk_keeps, walk_reaches, follow_sized}
use ldd3_workshop.Scull.Position.{IsSized, quantum_len_small, position_sum}
use ldd3_workshop.Scull.Content.{
  quantum_at, quantum_at-some, quantum_at-none, byte_in, byte_at, byte_at_same, IsWellFormed,
  stored,
}
use ldd3_workshop.Scull.Overwrite.{incoming, overwritten, overwrite_in, overwrite_out}

-- A write of `n` of the `count` bytes at the user address `buf`, to the position `f_pos` of `dev`.
pub record Wrote (dev : ScullDev) (user : Bytes) (f_pos buf count n : ℕ) (s : Session)
    : Type 0 where
  pub taken : n ≡ min count (dev.quantum_len - (position dev f_pos).offset_p)
  pub moved : s.f_pos ≡ f_pos + n
  pub grown : s.dev.len ≡ max dev.len (f_pos + n)
  pub written : (i : ℕ) → i < n → byte_at s.dev (f_pos + i) ≡ some (user (buf + i))
  pub kept :
      (p b : ℕ) → (p < f_pos) ⊎ (f_pos + n ≤ p) → byte_at dev p ≡ some b → byte_at s.dev p ≡ some b
  pub same_quantum : s.dev.quantum_len ≡ dev.quantum_len
  pub same_qset : s.dev.qset_len ≡ dev.qset_len
  pub same_user : s.user ≡ user

module _ (k : Kernel) (linux : IsLinux k) where
  abbrev clip : Session → ℕ → ℕ
  clip t count =
      let room = sub64 t.dev.quantum_len (position t.dev t.f_pos).offset_p in
      if ltb room count then room else count

  clip-eq-min :
      (t : Session) (count : ℕ)
      → IsSized t.dev
      → clip t count ≡ min count (t.dev.quantum_len - (position t.dev t.f_pos).offset_p)
  clip-eq-min t count v = ground (arith, quantum_len_small t.dev v, position_sum t.dev v t.f_pos)

  copy_in-eq-ok :
      (t : Session) (a : List (Option Quantum)) (qu : Quantum) (buf count n : ℕ) (s : Session)
      → let f = position t.dev t.f_pos in
        copy_in k t f a qu buf count ≡ (ok n, s)
        → t.f_pos + count < 2 ^ 63
        → (n ≡ clip t count)
          × ((incoming k linux t.user buf n f.offset_p qu).0 ≡ 0)
          × (s ≡ record t {
            dev = record t.dev {
              qset = stored t.dev.qset f a (overwritten k linux t.user buf n f.offset_p qu);
              len = max t.dev.len (t.f_pos + n);
            };
            f_pos = t.f_pos + n;
          })
  unfolding copy_in
  copy_in-eq-ok t a qu buf count n s e b = ground arith

  -- The array `a` and the quantum `qu` are those at the position, or new ones that the chain does
  -- not hold yet.
  abbrev pub Agrees : Session → List (Option Quantum) → Type 0
  Agrees t a =
      let f = position t.dev t.f_pos in (j : ℕ) → quantum_at t.dev.qset f.qset_p j ≡ get_or a j none

  abbrev pub Holds : Session → Quantum → Type 0
  Holds t qu =
      let f = position t.dev t.f_pos in
      (o b : ℕ) → byte_in (quantum_at t.dev.qset f.qset_p f.quantum_p) o ≡ some b → qu.bytes o ≡ b

  copy_in_lem :
      (t : Session) (a : List (Option Quantum)) (qu : Quantum) (buf count n : ℕ) (s : Session)
      → IsSized t.dev
      → t.f_pos + count < 2 ^ 63
      → (position t.dev t.f_pos).qset_p < length t.dev.qset
      → length a ≡ t.dev.qset_len
      → Agrees t a
      → Holds t qu
      → copy_in k t (position t.dev t.f_pos) a qu buf count ≡ (ok n, s)
      → Wrote t.dev t.user t.f_pos buf count n s
  unfolding byte_at position
  copy_in_lem t a qu buf count n s v b hi hl agrees holds e =
      let p = position_sum t.dev v t.f_pos in
      let (n_clip, all, s_is) = copy_in-eq-ok t a qu buf count n s e b in
      let taken : n ≡ min count (t.dev.quantum_len - (position t.dev t.f_pos).offset_p) =
        n_clip ∙ clip-eq-min t count v in
      let hj : (position t.dev t.f_pos).quantum_p < length a = rw hl p.1 in
      let room : n + (position t.dev t.f_pos).offset_p ≤ t.dev.quantum_len = omega (arith, p) in
      rw s_is (record {
        taken = taken;
        moved = refl;
        grown = refl;
        written = λ i l.
            overwrite_in k linux t.dev v t.f_pos n room t.user buf t.dev.qset a qu hi hj i all l;
        kept = λ p' b' out h.
            overwrite_out k linux t.dev v t.f_pos n room t.user buf t.dev.qset a qu hi hj agrees
              holds p' b' out h;
        same_quantum = refl;
        same_qset = refl;
        same_user = refl;
      })

  Holds-old :
      (t : Session) (a : List (Option Quantum)) (qu : Quantum)
      → Agrees t a
      → get_or a (position t.dev t.f_pos).quantum_p none ≡ some qu
      → Holds t qu
  Holds-old t a qu agrees old o b h =
      let e : some (qu.bytes o) ≡ some b =
        rw (agrees (position t.dev t.f_pos).quantum_p, old) at h in
      cc

  Holds-new :
      (t : Session) (a : List (Option Quantum)) (qu : Quantum)
      → Agrees t a
      → get_or a (position t.dev t.f_pos).quantum_p none ≡ none
      → Holds t qu
  Holds-new t a qu agrees new o b h =
      let e : none ≡ some b = rw (agrees (position t.dev t.f_pos).quantum_p, new) at h in cc

  write_slot_lem :
      (t : Session) (a : List (Option Quantum)) (buf count n : ℕ) (s : Session)
      → IsSized t.dev
      → t.f_pos + count < 2 ^ 63
      → (position t.dev t.f_pos).qset_p < length t.dev.qset
      → length a ≡ t.dev.qset_len
      → Agrees t a
      → write_slot k t (position t.dev t.f_pos) a buf count ≡ (ok n, s)
      → Wrote t.dev t.user t.f_pos buf count n s
  unfolding write_slot
  write_slot_lem t a buf count n s v b hi hl agrees e =
      elim (Option-cases (get_or a (position t.dev t.f_pos).quantum_p none)) [
        | inr (qu, old) ↦
            copy_in_lem t a qu buf count n s v b hi hl agrees (Holds-old t a qu agrees old)
              (rw (old, write_slot) at e)
        | inl new ↦ elim (Bool-cases (k.grants t.requests)) [
          | inl g ↦
              copy_in_lem (record t { requests = t.requests + 1 }) a (fresh t) buf count n s v b hi
                hl agrees (Holds-new t a (fresh t) agrees new) (rw (new, write_slot, g) at e)
          | inr g ↦ ground arith
        ]
      ]
    where
      fresh : Session → Quantum
      fresh t' = record { request = t'.requests; bytes = k.garbage t'.requests }

  write_set_lem :
      (t : Session) (buf count n : ℕ) (s : Session)
      → IsSized t.dev
      → IsWellFormed t.dev
      → t.f_pos + count < 2 ^ 63
      → (position t.dev t.f_pos).qset_p < length t.dev.qset
      → write_set k t
          (position t.dev t.f_pos)
          (get_or t.dev.qset (position t.dev t.f_pos).qset_p zeroed_qset)
          buf
          count
        ≡ (ok n, s)
      → Wrote t.dev t.user t.f_pos buf count n s
  unfolding write_set
  write_set_lem t buf count n s v w b hi e =
      elim (Option-cases (get_or t.dev.qset (position t.dev t.f_pos).qset_p zeroed_qset).quanta) [
        | inr (a, old) ↦
            write_slot_lem t a buf count n s v b hi (w (position t.dev t.f_pos).qset_p a old)
              (λ j. quantum_at-some t.dev.qset (position t.dev t.f_pos).qset_p j old)
              (rw (old, write_set) at e)
        | inl new ↦ elim (Bool-cases (k.grants t.requests)) [
          | inl g ↦
              write_slot_lem (record t { requests = t.requests + 1 })
                (replicate t.dev.qset_len none) buf count n s v b hi (length-replicate _ _)
                (λ j.
                  quantum_at-none t.dev.qset (position t.dev t.f_pos).qset_p j new
                  ∙ sym (get_or-replicate t.dev.qset_len j none))
                (rw (new, write_set, g) at e)
          | inr g ↦ ground arith
        ]
      ]

  -- A successful write, from the walk on.
  write_walked_lem :
      (t : Session) (w : Walk) (buf count n : ℕ) (s : Session)
      → IsSized t.dev
      → IsWellFormed t.dev
      → t.f_pos + count < 2 ^ 63
      → ((i : ℕ) → get_or w.chain i zeroed_qset ≡ get_or t.dev.qset i zeroed_qset)
      → (w.found ≡ true → (position t.dev t.f_pos).qset_p < length w.chain)
      → write_walked k t (position t.dev t.f_pos) w buf count ≡ (ok n, s)
      → Wrote t.dev t.user t.f_pos buf count n s
  unfolding write_walked position
  write_walked_lem t w buf count n s v wf b keeps reaches e = elim (Bool-cases w.found) [
    | inr lost ↦ ground arith
    | inl found ↦
        (let r =
            write_set_lem t' buf count n s v' wf' b (reaches found)
              (rw (found, write_walked) at e) in
          record {
            taken = r.taken;
            moved = r.moved;
            grown = r.grown;
            written = r.written;
            kept = λ p b' out h. r.kept p b' out (byte_at_same t.dev w.chain keeps p ∙ h);
            same_quantum = r.same_quantum;
            same_qset = r.same_qset;
            same_user = r.same_user;
          })
  ]
    where
      t' : Session
      t' = record t { dev = record t.dev { qset = w.chain }; requests = w.requests }

      v' : IsSized t'.dev
      v' = record { quantum_pos = v.quantum_pos; qset_pos = v.qset_pos; fits = v.fits }

      wf' : IsWellFormed t'.dev
      wf' i a h = wf i a (ap (λ (q : Qset). q.quanta) (sym (keeps i)) ∙ h)

-- A write that returns `n`, to a well-formed device of sound sizes: `n` is the smaller of `count`
-- and of what is left of the quantum, the file position grows by `n` and the length to cover it,
-- the bytes from the old position on are those of the user, and every other byte stays.
pub scull_write-Wrote :
    (k : Kernel) (s : Session) (buf count n : ℕ) (s' : Session)
    → IsLinux k
    → IsSized s.dev
    → IsWellFormed s.dev
    → s.f_pos + count < 2 ^ 63
    → scull_write k false s buf count ≡ some (ok n, s')
    → Wrote s.dev s.user s.f_pos buf count n s'
unfolding scull_write
scull_write-Wrote k s buf count n s' linux v wf b e =
    let f = position s.dev s.f_pos in
    let w = follow_from k f.qset_p s.requests s.dev.qset in
    let e' : some (write_walked k s f w buf count) ≡ some (ok n, s') =
      rw (scull_write, follow_sized k s.dev s.requests s.f_pos v) at e in
    write_walked_lem k linux s w buf count n s' v wf b (walk_keeps k f.qset_p s.requests s.dev.qset)
      (walk_reaches k f.qset_p s.requests s.dev.qset) (cc)
