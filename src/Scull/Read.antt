-- ===== src/Scull/Read.antt =====
-- `scull_read` of scull/main.c: which bytes reach the user.
use ldd3_workshop.Prelude.{
  ℕ, ◌+◌, ◌-◌, ◌^◌, ◌≤◌, ◌<◌, ◌≡◌, ◌⊎◌, inl, inr, refl, sym, ap, ◌∙◌, false, Option, none, some,
  arith, min, get_or, sub64, ltb, leb, if◌then◌else◌, add64, Bool-cases, Option-cases,
}
use ldd3_workshop.Kernel.{Bytes, Ret, ok, Kernel, IsLinux}
use ldd3_workshop.Scull.Device.{Quantum, Qset, zeroed_qset, ScullDev, Follow}
use ldd3_workshop.Scull.Io.{
  Session, Walk, position, copy_out, read_set, read_walked, scull_read, follow_from,
}
use ldd3_workshop.Scull.Walk.{walk_keeps, walk_lost, follow_sized}
use ldd3_workshop.Scull.Position.{IsSized, quantum_len_small, position_sum, position-add}
use ldd3_workshop.Scull.Content.{
  quantum_at, quantum_at-some, quantum_at-none, byte_at, byte_at_same,
}

-- A read of `n` bytes at `f_pos` of `dev`, to the user address `buf`.
pub record Gave (dev : ScullDev) (user : Bytes) (f_pos buf n : ℕ) (s : Session) : Type 0 where
  pub moved : s.f_pos ≡ f_pos + n
  pub copied : (i : ℕ) → i < n → byte_at dev (f_pos + i) ≡ some (s.user (buf + i))
  pub untouched : (x : ℕ) → (x < buf) ⊎ (buf + n ≤ x) → s.user x ≡ user x
  pub same_bytes : (p : ℕ) → byte_at s.dev p ≡ byte_at dev p
  pub same_len : s.dev.len ≡ dev.len

-- How many bytes there are at `f_pos`: up to the end of the device or of the quantum.
abbrev pub readable : ScullDev → ℕ → ℕ
readable dev f_pos = min (dev.len - f_pos) (dev.quantum_len - (position dev f_pos).offset_p)

module _ (k : Kernel) (linux : IsLinux k) where
  abbrev clip : Session → ℕ → ℕ
  clip t count =
      let room = sub64 t.dev.quantum_len (position t.dev t.f_pos).offset_p in
      if ltb room count then room else count

  clip-eq-min :
      (t : Session) (count : ℕ)
      → IsSized t.dev
      → clip t count ≡ min count (t.dev.quantum_len - (position t.dev t.f_pos).offset_p)
  clip-eq-min t count v = ground (arith, quantum_len_small t.dev v, position_sum t.dev v t.f_pos)

  abbrev outgoing : Session → Quantum → ℕ → ℕ → ℕ × Bytes
  outgoing t qu buf n =
      k.copy_to_user t.user buf (λ i. qu.bytes ((position t.dev t.f_pos).offset_p + i)) n

  copy_out-eq-ok :
      (t : Session) (qu : Quantum) (buf count n : ℕ) (s : Session)
      → t.f_pos + count < 2 ^ 63
      → copy_out k t (position t.dev t.f_pos) qu buf count ≡ (ok n, s)
      → (n ≡ clip t count)
        × ((outgoing t qu buf n).0 ≡ 0)
        × (s ≡ record t { user = (outgoing t qu buf n).1; f_pos = t.f_pos + n })
  unfolding copy_out
  copy_out-eq-ok t qu buf count n s b e = ground arith

  copy_out_lem :
      (t : Session) (qu : Quantum) (buf count n : ℕ) (s : Session)
      → IsSized t.dev
      → t.f_pos + count < 2 ^ 63
      → quantum_at t.dev.qset (position t.dev t.f_pos).qset_p (position t.dev t.f_pos).quantum_p
        ≡ some qu
      → copy_out k t (position t.dev t.f_pos) qu buf count ≡ (ok n, s)
      → Gave t.dev t.user t.f_pos buf n s
        × (n ≡ min count (t.dev.quantum_len - (position t.dev t.f_pos).offset_p))
  unfolding byte_at
  copy_out_lem t qu buf count n s v b at e =
      let f = position t.dev t.f_pos in
      let (n_clip, all, s_is) = copy_out-eq-ok t qu buf count n s b e in
      let taken = n_clip ∙ clip-eq-min t count v in
      let p = position_sum t.dev v t.f_pos in
      (
        rw s_is (record {
          moved = refl;
          copied = λ i l.
              rw (position-add t.dev v t.f_pos i (omega (arith, p)), at)
                (ap some
                  (sym (linux.to_copies t.user buf (λ j. qu.bytes (f.offset_p + j)) n i all l)));
          untouched = λ x out. linux.to_frame t.user buf (λ j. qu.bytes (f.offset_p + j)) n x out;
          same_bytes = λ q. refl;
          same_len = refl;
        }),
        taken,
      )

  -- What a read from the set at the position gives: where there is a byte, as much as fits.
  abbrev Filled : Session → ℕ → ℕ → Type 0
  Filled t count n =
      (b : ℕ)
      → byte_at t.dev t.f_pos ≡ some b
      → n ≡ min count (t.dev.quantum_len - (position t.dev t.f_pos).offset_p)

  Gave-nothing : (t : Session) (buf : ℕ) → Gave t.dev t.user t.f_pos buf 0 t
  Gave-nothing t buf = record {
    moved = omega arith;
    copied = λ i l. absurd (omega arith);
    untouched = λ x out. refl;
    same_bytes = λ p. refl;
    same_len = refl;
  }

  hole :
      (t : Session) (buf count n : ℕ) (s : Session)
      → quantum_at t.dev.qset (position t.dev t.f_pos).qset_p (position t.dev t.f_pos).quantum_p
        ≡ none
      → ◌≡◌ {A = Ret × Session} (ok 0, t) (ok n, s)
      → Gave t.dev t.user t.f_pos buf n s × (n ≤ count) × Filled t count n
  unfolding byte_at
  hole t buf count n s at e =
      let n_is : 0 ≡ n = ground arith in
      let s_is : t ≡ s = ground arith in
      (
        rw (← n_is, ← s_is) (Gave-nothing t buf),
        omega arith,
        λ b h. let none_is : none ≡ some b = rw at at h in cc,
      )

  read_set_lem :
      (t : Session) (buf count n : ℕ) (s : Session)
      → IsSized t.dev
      → t.f_pos + count < 2 ^ 63
      → read_set k t
          (position t.dev t.f_pos)
          (get_or t.dev.qset (position t.dev t.f_pos).qset_p zeroed_qset)
          buf
          count
        ≡ (ok n, s)
      → Gave t.dev t.user t.f_pos buf n s × (n ≤ count) × Filled t count n
  unfolding read_set
  read_set_lem t buf count n s v b e =
      elim (Option-cases (get_or t.dev.qset f.qset_p zeroed_qset).quanta) [
        | inl no_array ↦
            hole t buf count n s (quantum_at-none t.dev.qset f.qset_p f.quantum_p no_array)
              (rw (no_array, read_set) at e)
        | inr (a, array) ↦ elim (Option-cases (get_or a f.quantum_p none)) [
          | inl null ↦
              hole t buf count n s (quantum_at-some t.dev.qset f.qset_p f.quantum_p array ∙ null)
                (rw (array, read_set, null) at e)
          | inr (qu, at) ↦
              (let (gave, taken) =
                  copy_out_lem t qu buf count n s v b
                    (quantum_at-some t.dev.qset f.qset_p f.quantum_p array ∙ at)
                    (rw (array, read_set, at) at e) in
                (gave, omega (arith, taken), λ _ _. taken))
        ]
      ]
    where
      f : Follow
      f = position t.dev t.f_pos

  read_walked_lem :
      (t : Session) (w : Walk) (buf count n : ℕ) (s : Session)
      → IsSized t.dev
      → t.f_pos + count < 2 ^ 63
      → ((i : ℕ) → get_or w.chain i zeroed_qset ≡ get_or t.dev.qset i zeroed_qset)
      → (w.found ≡ false
          → get_or t.dev.qset (position t.dev t.f_pos).qset_p zeroed_qset ≡ zeroed_qset)
      → read_walked k t (position t.dev t.f_pos) w buf count ≡ (ok n, s)
      → Gave t.dev t.user t.f_pos buf n s × (n ≤ count) × Filled t count n
  unfolding read_walked position
  read_walked_lem t w buf count n s v b keeps lost e =
      let (g, le, filled) = at_set in
      let same = byte_at_same t.dev w.chain keeps in
      (
        record {
          moved = g.moved;
          copied = λ i l. sym (same (t.f_pos + i)) ∙ g.copied i l;
          untouched = g.untouched;
          same_bytes = λ p. g.same_bytes p ∙ same p;
          same_len = g.same_len;
        },
        le,
        λ c h. filled c (same t.f_pos ∙ h),
      )
    where
      t' : Session
      t' = record t { dev = record t.dev { qset = w.chain }; requests = w.requests }

      v' : IsSized t'.dev
      v' = record { quantum_pos = v.quantum_pos; qset_pos = v.qset_pos; fits = v.fits }

      f : Follow
      f = position t.dev t.f_pos

      at_set : Gave t'.dev t'.user t'.f_pos buf n s × (n ≤ count) × Filled t' count n
      at_set = elim (Bool-cases w.found) [
        | inl found ↦ read_set_lem t' buf count n s v' b (rw (found, read_walked) at e)
        | inr failed ↦
            hole t' buf count n s
              (quantum_at-none w.chain f.qset_p f.quantum_p
                (ap (λ (q : Qset). q.quanta) (keeps f.qset_p ∙ lost failed)))
              (rw (failed, read_walked) at e)
      ]

-- What a read of `n` of the `count` bytes asked for does.
pub record Read (dev : ScullDev) (user : Bytes) (f_pos buf count n : ℕ) (s : Session) : Type 0 where
  pub gave : Gave dev user f_pos buf n s
  pub at_most : n ≤ min count (dev.len - f_pos)
  pub full : (b : ℕ) → byte_at dev f_pos ≡ some b → n ≡ min count (readable dev f_pos)

abbrev count_to_end : Session → ℕ → ℕ
count_to_end s count =
    if ltb s.dev.len (add64 s.f_pos count) then sub64 s.dev.len s.f_pos else count

count_to_end_lem :
    (s : Session) (count : ℕ)
    → s.dev.len < 2 ^ 63
    → s.f_pos + count < 2 ^ 63
    → leb s.dev.len s.f_pos ≡ false
    → count_to_end s count ≡ min count (s.dev.len - s.f_pos)
count_to_end_lem s count l b h = ground arith

-- A read that returns `n`: the file position grows by `n`, the `n` bytes of the device from the old
-- position on are at `buf` in user memory, and nothing else of user memory or of the bytes of the
-- device changes. `n` is bounded by `count` and by the end of the device, and where the device
-- holds a byte at the position, `n` is all that is left of `count`, the device and the quantum.
pub scull_read-Read :
    (k : Kernel) (s : Session) (buf count n : ℕ) (s' : Session)
    → IsLinux k
    → IsSized s.dev
    → s.dev.len < 2 ^ 63
    → s.f_pos + count < 2 ^ 63
    → scull_read k false s buf count ≡ some (ok n, s')
    → Read s.dev s.user s.f_pos buf count n s'
unfolding scull_read
scull_read-Read k s buf count n s' linux v l b e = elim (Bool-cases (leb s.dev.len s.f_pos)) [
  | inl end ↦
      (let e' : ◌≡◌ {A = Option (Ret × Session)} (some (ok 0, s)) (some (ok n, s')) =
          rw (scull_read, end) at e in
        let n_is : 0 ≡ n = ground arith in
        let s_is : s ≡ s' = ground arith in
        rw (← n_is, ← s_is)
          (record {
            gave = Gave-nothing k linux s buf;
            at_most = omega arith;
            full = λ x h. ground arith;
          }))
  | inr inside ↦
      (let e' : some (read_walked k s f w buf (count_to_end s count)) ≡ some (ok n, s') =
          rw (scull_read, inside, follow_sized k s.dev s.requests s.f_pos v) at e in
        let c = count_to_end_lem s count l b inside in
        let (g, le, filled) =
          read_walked_lem k linux s w buf (count_to_end s count) n s' v (omega (arith, c))
            (walk_keeps k f.qset_p s.requests s.dev.qset)
            (walk_lost k f.qset_p s.requests s.dev.qset) (cc) in
        record {
          gave = g;
          at_most = omega (arith, c, le);
          full = λ x h. omega (arith, c, filled x h);
        })
]
  where
    f : Follow
    f = position s.dev s.f_pos

    w : Walk
    w = follow_from k f.qset_p s.requests s.dev.qset
