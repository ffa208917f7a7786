-- ===== src/Scull/Io.antt =====
-- `__scull_follow`, `scull_read` and `scull_write` of scull/main.c.
use ldd3_workshop.Prelude.{
  ℕ, zero, suc, ◌+◌, ◌-◌, ◌/◌, ◌%◌, Bool, true, false, Option, none, some, List, [], ◌∷◌, ltb, leb,
  ◌==◌, if◌then◌else◌, add64, sub64, mul64, get_or, set, replicate,
}
use ldd3_workshop.Kernel.{Bytes, Ret, ok, err, enomem, efault, erestartsys, Kernel}
use ldd3_workshop.Scull.Device.{Quantum, Qset, zeroed_qset, ScullDev, Follow}

-- Where the walk of `__scull_follow` ends: the chain, the requests for memory so far, and whether
-- it reached a set (else a request was refused).
pub record Walk : Type 0 where
  pub chain : List Qset
  pub requests : ℕ
  pub found : Bool

-- What an operation on an open file works on.
pub record Session : Type 0 where
  pub dev : ScullDev
  pub requests : ℕ
  pub user : Bytes
  pub f_pos : ℕ

unfoldable pub total_len : ScullDev → ℕ
total_len dev = mul64 dev.quantum_len dev.qset_len

-- The position that `f_pos` stands for, where `total_len` is not 0.
unfoldable pub position : ScullDev → ℕ → Follow
unfolding total_len
position dev f_pos = record {
  qset_p = f_pos / total_len dev;
  quantum_p = f_pos % total_len dev / dev.quantum_len;
  offset_p = f_pos % total_len dev % dev.quantum_len;
}

-- The bytes `new` from the offset `off` on: what `copy_from_user` leaves behind the pointer
-- `data[quantum_p] + offset_p`.
abbrev pub splice : Bytes → ℕ → Bytes → Bytes
splice old off new j = if leb off j then new (j - off) else old j

-- The array `a` behind the set numbered `qset_p` of the chain.
abbrev pub store_array : ScullDev → Follow → List (Option Quantum) → ScullDev
store_array dev flw a = record dev { qset = set dev.qset flw.qset_p (record { quanta = some a }) }

module _ (k : Kernel) where
  -- The loop `while (n--)`, standing at the set `q` with the chain `next` behind it.
  unfoldable pub follow_loop : ℕ → ℕ → Qset → List Qset → Walk
  follow_loop zero r q next = record { chain = q ∷ next; requests = r; found = true }
  follow_loop (suc n) r q [] =
      let rest = follow_loop n (r + 1) zeroed_qset [] in
      if k.grants r
      then record rest { chain = q ∷ rest.chain }
      else record { chain = q ∷ []; requests = r + 1; found = false }
  follow_loop (suc n) r q (q' ∷ next) =
      let rest = follow_loop n r q' next in record rest { chain = q ∷ rest.chain }

  -- The walk from `dev->qset`, which is allocated where it is NULL.
  unfoldable pub follow_from : ℕ → ℕ → List Qset → Walk
  unfolding follow_loop
  follow_from n r (q ∷ next) = follow_loop n r q next
  follow_from n r [] =
      if k.grants r
      then follow_loop n (r + 1) zeroed_qset []
      else record { chain = []; requests = r + 1; found = false }

  -- `none` is the fault of a division by zero.
  unfoldable pub follow : ScullDev → ℕ → ℕ → Option (Follow × Walk)
  follow dev r f_pos =
      if total_len dev == 0
      then none
      else some (position dev f_pos, follow_from (position dev f_pos).qset_p r dev.qset)

  -- Lines 175 to 184: the copy to the user, from the quantum `qu`.
  unfoldable pub copy_out : Session → Follow → Quantum → ℕ → ℕ → Ret × Session
  copy_out s flw qu buf count =
      let room = sub64 s.dev.quantum_len flw.offset_p in
      let n = if ltb room count then room else count in
      let (left, user') = k.copy_to_user s.user buf (λ i. qu.bytes (flw.offset_p + i)) n in
      if left == 0
      then (ok n, record s { user = user'; f_pos = add64 s.f_pos n })
      else (err efault, record s { user = user' })

  -- Lines 171 to 184: nothing is read where a pointer on the way is NULL.
  unfoldable pub read_set : Session → Follow → Qset → ℕ → ℕ → Ret × Session
  read_set s flw q buf count = elim q.quanta [
    | none ↦ (ok 0, s)
    | some a ↦ elim (get_or a flw.quantum_p none) [
      | none ↦ (ok 0, s)
      | some qu ↦ copy_out s flw qu buf count
    ]
  ]

  -- What follows the walk: `qset` is the set numbered `qset_p` of the chain.
  unfoldable pub read_walked : Session → Follow → Walk → ℕ → ℕ → Ret × Session
  read_walked s flw w buf count =
      let s' = record s { dev = record s.dev { qset = w.chain }; requests = w.requests } in
      if w.found
      then read_set s' flw (get_or w.chain flw.qset_p zeroed_qset) buf count
      else (ok 0, s')

  unfoldable pub scull_read : Bool → Session → ℕ → ℕ → Option (Ret × Session)
  scull_read interrupted s buf count =
      if interrupted
      then some (err erestartsys, s)
      else if leb s.dev.len s.f_pos
      then some (ok 0, s)
      else (let count' =
            if ltb s.dev.len (add64 s.f_pos count) then sub64 s.dev.len s.f_pos else count in
          elim (follow s.dev s.requests s.f_pos) [
            | none ↦ none
            | some (flw, w) ↦ some (read_walked s flw w buf count')
          ])

  -- Lines 217 to 231: the copy from the user, into the quantum `qu` of the array `a`.
  unfoldable pub copy_in :
      Session → Follow → List (Option Quantum) → Quantum → ℕ → ℕ → Ret × Session
  copy_in s flw a qu buf count =
      let room = sub64 s.dev.quantum_len flw.offset_p in
      let n = if ltb room count then room else count in
      let (left, new) = k.copy_from_user s.user (λ i. qu.bytes (flw.offset_p + i)) buf n in
      let qu' = record qu { bytes = splice qu.bytes flw.offset_p new } in
      let dev' = store_array s.dev flw (set a flw.quantum_p (some qu')) in
      let pos = add64 s.f_pos n in
      if left == 0
      then (
        ok n,
        record s {
          dev = record dev' { len = if ltb dev'.len pos then pos else dev'.len };
          f_pos = pos;
        },
      )
      else (err efault, record s { dev = dev' })

  -- Lines 211 to 231: the quantum is allocated where its pointer is NULL.
  unfoldable pub write_slot : Session → Follow → List (Option Quantum) → ℕ → ℕ → Ret × Session
  write_slot s flw a buf count =
      let r = s.requests in
      let s' = record s { requests = r + 1 } in
      elim (get_or a flw.quantum_p none) [
        | some qu ↦ copy_in s flw a qu buf count
        | none ↦
            if k.grants r
            then copy_in s' flw a (record { request = r; bytes = k.garbage r }) buf count
            else (err enomem, record s' { dev = store_array s.dev flw a })
      ]

  -- Lines 205 to 231: the array is allocated, all NULL, where its pointer is NULL.
  unfoldable pub write_set : Session → Follow → Qset → ℕ → ℕ → Ret × Session
  write_set s flw q buf count =
      let r = s.requests in
      let s' = record s { requests = r + 1 } in
      elim q.quanta [
        | some a ↦ write_slot s flw a buf count
        | none ↦
            if k.grants r
            then write_slot s' flw (replicate s.dev.qset_len none) buf count
            else (err enomem, s')
      ]

  unfoldable pub write_walked : Session → Follow → Walk → ℕ → ℕ → Ret × Session
  write_walked s flw w buf count =
      let s' = record s { dev = record s.dev { qset = w.chain }; requests = w.requests } in
      if w.found
      then write_set s' flw (get_or w.chain flw.qset_p zeroed_qset) buf count
      else (err enomem, s')

  unfoldable pub scull_write : Bool → Session → ℕ → ℕ → Option (Ret × Session)
  scull_write interrupted s buf count =
      if interrupted then some (err erestartsys, s) else elim (follow s.dev s.requests s.f_pos) [
        | none ↦ none
        | some (flw, w) ↦ some (write_walked s flw w buf count)
      ]
