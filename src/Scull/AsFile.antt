-- ===== src/Scull/AsFile.antt =====
-- A memory device (scull/main.c) is a file of bytes to those who open, read and write it.
use ldd3_workshop.Prelude.{
  ℕ, ◌+◌, ◌-◌, ◌*◌, ◌^◌, ◌≤◌, ◌<◌, ◌≡◌, ◌⊎◌, inl, inr, refl, sym, ap, ◌∙◌, Bool, true, false, none,
  some, add64, sub64, arith, get_or, ltb, leb, if◌then◌else◌, Bool-cases,
}
use ldd3_workshop.Kernel.{Bytes, Ret, ok, err, Errno, Kernel}
use ldd3_workshop.Scull.Device.{Qset, zeroed_qset, ScullDev, Params, trim}
use ldd3_workshop.Scull.Io.{
  Session, position, follow_from, copy_out, read_set, read_walked, scull_read, write_walked,
  scull_write,
}
use ldd3_workshop.Scull.Walk.{walk_keeps, follow_sized}
use ldd3_workshop.Scull.Position.{IsSized, IsSized-same, position_same_sizes}
use ldd3_workshop.Scull.Content.{byte_of, byte_at, byte_at_same, IsWellFormed}
use ldd3_workshop.Scull.Write.{Wrote}
use ldd3_workshop.Scull.Shape.{Keeps}
use ldd3_workshop.Scull.Spares.{Spares}
use ldd3_workshop.Scull.History.{no_bytes, is_in, with_bytes, without_bytes, History}

-- Sizes that the module parameters may have.
pub record IsSound (p : Params) : Type 0 where
  pub quantum_pos : 0 < p.scull_quantum
  pub qset_pos : 0 < p.scull_qset
  pub fits : p.scull_quantum * p.scull_qset < 2 ^ 63

-- The device is sound, and holds the file.
pub record IsFile (h : History) : Type 0 where
  pub sized : IsSized h.dev
  pub shape : IsWellFormed h.dev
  pub small : h.dev.len < 2 ^ 63
  pub same_len : h.dev.len ≡ h.file.size
  pub holds : (x b : ℕ) → h.file.at x ≡ some b → byte_at h.dev x ≡ some b
  pub no_fault : h.faulted ≡ false

-- What a read does to the device: at most it adds empty sets to the chain.
pub record SameContent (dev dev' : ScullDev) : Type 0 where
  pub same_quantum : dev'.quantum_len ≡ dev.quantum_len
  pub same_qset : dev'.qset_len ≡ dev.qset_len
  pub same_len : dev'.len ≡ dev.len
  pub same_sets : (i : ℕ) → get_or dev'.qset i zeroed_qset ≡ get_or dev.qset i zeroed_qset

nothing : (dev : ScullDev) → SameContent dev dev
nothing dev = record {
  same_quantum = refl;
  same_qset = refl;
  same_len = refl;
  same_sets = λ i. refl;
}

module _ (k : Kernel) where
  read_walked-SameContent :
      (s : Session) (buf count : ℕ)
      → SameContent s.dev
          (read_walked k s
            (position s.dev s.f_pos)
            (follow_from k (position s.dev s.f_pos).qset_p s.requests s.dev.qset)
            buf
            count).1.dev
  unfolding read_walked read_set copy_out
  read_walked-SameContent s buf count =
      let f = position s.dev s.f_pos in
      let w = follow_from k f.qset_p s.requests s.dev.qset in
      let same : (read_walked k s f w buf count).1.dev ≡ record s.dev { qset = w.chain } =
        ground arith in
      rw same (record {
        same_quantum = refl;
        same_qset = refl;
        same_len = refl;
        same_sets = walk_keeps k f.qset_p s.requests s.dev.qset;
      })

  pub read-SameContent :
      (interrupted : Bool) (s : Session) (buf count : ℕ)
      → IsSized s.dev
      → (r : Ret × Session) × (scull_read k interrupted s buf count ≡ some r)
        × SameContent s.dev r.1.dev
  unfolding scull_read
  read-SameContent true s buf count v = (_, refl, nothing s.dev)
  read-SameContent false s buf count v = elim (Bool-cases (leb s.dev.len s.f_pos)) [
    | inl end ↦ ((ok 0, s), rw end refl, nothing s.dev)
    | inr inside ↦
        (let f = position s.dev s.f_pos in
          let w = follow_from k f.qset_p s.requests s.dev.qset in
          let count' =
            if ltb s.dev.len (add64 s.f_pos count) then sub64 s.dev.len s.f_pos else count in
          (
            read_walked k s f w buf count',
            rw (inside, follow_sized k s.dev s.requests s.f_pos v) refl,
            read_walked-SameContent s buf count',
          ))
  ]

  pub write_returns :
      (interrupted : Bool) (s : Session) (buf count : ℕ)
      → IsSized s.dev
      → (r : Ret × Session) × (scull_write k interrupted s buf count ≡ some r)
  unfolding scull_write
  write_returns true s buf count v = (_, refl)
  write_returns false s buf count v =
      let f = position s.dev s.f_pos in
      (
        write_walked k s f (follow_from k f.qset_p s.requests s.dev.qset) buf count,
        rw (follow_sized k s.dev s.requests s.f_pos v) refl,
      )

-- The device after a read holds what it held.
pub SameContent-IsFile :
    (h : History) (dev' : ScullDev) (r : ℕ)
    → IsFile h
    → SameContent h.dev dev'
    → IsFile (record h { dev = dev'; requests = r })
unfolding byte_at
SameContent-IsFile h dev' r i c = record {
  sized = IsSized-same h.dev dev' c.same_quantum c.same_qset i.sized;
  shape = λ n a e.
      i.shape n a (ap (λ (q : Qset). q.quanta) (sym (c.same_sets n)) ∙ e) ∙ sym c.same_qset;
  small = rw c.same_len i.small;
  same_len = c.same_len ∙ i.same_len;
  holds = λ x b e.
      let there = byte_at_same h.dev dev'.qset c.same_sets x ∙ i.holds x b e in
      let sizes : position dev' x ≡ position (record h.dev { qset = dev'.qset }) x =
        position_same_sizes (record h.dev { qset = dev'.qset }) dev' c.same_quantum c.same_qset x in
      ap (λ g. byte_of dev'.qset g) sizes ∙ there;
  no_fault = i.no_fault;
}

-- An emptied device is the empty file.
pub emptied-IsFile :
    (p : Params) (h : History)
    → IsSound p
    → h.faulted ≡ false
    → IsFile (record h { dev = (trim p h.dev).1; file = no_bytes })
unfolding trim
emptied-IsFile p h sound fine = record {
  sized = record { quantum_pos = sound.quantum_pos; qset_pos = sound.qset_pos; fits = sound.fits };
  shape = λ n a e. let e' : none ≡ some a = e in cc;
  small = omega arith;
  same_len = refl;
  holds = λ x b e. cc;
  no_fault = fine;
}

in_or_out :
    (f_pos n x : ℕ)
    → ((f_pos ≤ x) × (x < f_pos + n) × (is_in f_pos n x ≡ true))
      ⊎ (((x < f_pos) ⊎ (f_pos + n ≤ x)) × (is_in f_pos n x ≡ false))
in_or_out f_pos n x = ground arith

-- A device to which `n` bytes were written holds the file with these bytes.
pub Wrote-IsFile :
    (h : History) (user : Bytes) (f_pos buf count n : ℕ) (s : Session)
    → IsFile h
    → f_pos + count < 2 ^ 63
    → IsWellFormed s.dev
    → Wrote h.dev user f_pos buf count n s
    → IsFile
        (record h { dev = s.dev; requests = s.requests; file = with_bytes h.file user f_pos buf n })
Wrote-IsFile h user f_pos buf count n s i bound shape w = record {
  sized = IsSized-same h.dev s.dev w.same_quantum w.same_qset i.sized;
  shape = shape;
  small = omega (arith, w.grown, w.taken, i.small);
  same_len = omega (arith, w.grown, i.same_len);
  holds = λ x b e. elim (in_or_out f_pos n x) [
    | inl (low, high, inside) ↦
        (let e' : some (user (buf + (x - f_pos))) ≡ some b = rw inside at e in
          let back : f_pos + (x - f_pos) ≡ x = omega arith in
          ap (byte_at s.dev) (sym back) ∙ w.written (x - f_pos) (omega arith) ∙ e')
    | inr (out, outside) ↦ w.kept x b out (i.holds x b (rw outside at e))
  ];
  no_fault = i.no_fault;
}

-- A device at which a write failed holds the file without the bytes that it was to write.
pub Spares-IsFile :
    (h : History) (f_pos count : ℕ) (x : Errno) (s : Session)
    → IsFile h
    → s.dev.len ≡ h.dev.len
    → Keeps h.dev.quantum_len h.dev.qset_len (err x, s)
    → Spares h.dev f_pos count (err x, s)
    → IsFile
        (record h { dev = s.dev; requests = s.requests; file = without_bytes h.file f_pos count })
Spares-IsFile h f_pos count x s i same keeps spares = record {
  sized = IsSized-same h.dev s.dev keeps.same_quantum keeps.same_qset i.sized;
  shape = keeps.shape;
  small = rw same i.small;
  same_len = same ∙ i.same_len;
  holds = λ y b e. elim (in_or_out f_pos count y) [
    | inl (_, _, inside) ↦ (let e' : none ≡ some b = rw inside at e in cc)
    | inr (out, outside) ↦ spares.spared y b out (i.holds y b (rw outside at e))
  ];
  no_fault = i.no_fault;
}
