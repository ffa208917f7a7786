-- ===== src/Scull/Position.antt =====
-- How `__scull_follow` of scull/main.c splits a file position into a set, a quantum and an offset.
use native.Mathlib.Nat.{
  div-add-mod, mod-lt, mod-eq_of_lt, div-eq_of_lt, mul-pos, div-lt_iff_lt-mul, add-mul-div_left,
  add-mul-mod_self_left,
}
use ldd3_workshop.Prelude.{ℕ, ◌+◌, ◌*◌, ◌/◌, ◌%◌, ◌^◌, ◌<◌, ◌≡◌, ap, ◌∙◌, arith}
use ldd3_workshop.Scull.Device.{ScullDev}
use ldd3_workshop.Scull.Io.{total_len, position}

-- The sizes with which the arithmetic of `__scull_follow` is exact.
pub record IsSized (dev : ScullDev) : Type 0 where
  pub quantum_pos : 0 < dev.quantum_len
  pub qset_pos : 0 < dev.qset_len
  pub fits : dev.quantum_len * dev.qset_len < 2 ^ 63

pub total_len-exact :
    (dev : ScullDev) → IsSized dev → total_len dev ≡ dev.quantum_len * dev.qset_len
unfolding total_len
total_len-exact dev v = omega arith

pub quantum_len_small : (dev : ScullDev) → IsSized dev → dev.quantum_len < 2 ^ 63
quantum_len_small dev v = grind arith

-- Quotient and remainder are determined by the equation that they solve.
div_unique : (x q r m : ℕ) → r < m → x ≡ r + m * q → (x / m ≡ q) × (x % m ≡ r)
div_unique x q r m h e =
    let low : r / m ≡ 0 = div-eq_of_lt h in
    let quot : x / m ≡ q = rw e (omega (arith, add-mul-div_left r q {y = m} (omega arith), low)) in
    (quot, rw e (add-mul-mod_self_left r m q ∙ mod-eq_of_lt h))

module _ (t q l : ℕ) (e : t ≡ q * l) (hq : 0 < q) (hl : 0 < l) where
  t_pos : 0 < t
  t_pos = rw e (mul-pos hq hl)

  split_sum : (p : ℕ) → p ≡ q * l * (p / t) + q * (p % t / q) + p % t % q
  split_sum p = omega (arith, ap (λ (m : ℕ). m * (p / t)) e, div-add-mod p t, div-add-mod (p % t) q)

  split_quantum : (p : ℕ) → p % t / q < l
  split_quantum p =
      let low : p % t < q * l = rw (← e) (mod-lt p t_pos) in
      (div-lt_iff_lt-mul hq).1 (omega (arith, low))

  inner_lt : (j o : ℕ) → j < l → o < q → q * j + o < t
  inner_lt j o hj ho = rw e (grind arith)

  split_unique :
      (p i j o : ℕ)
      → j < l
      → o < q
      → p ≡ q * l * i + q * j + o
      → (p / t ≡ i) × (p % t / q ≡ j) × (p % t % q ≡ o)
  split_unique p i j o hj ho h =
      let outer =
        div_unique p i (q * j + o) t (inner_lt j o hj ho)
          (omega (arith, ap (λ (m : ℕ). m * i) e)) in
      let inner = div_unique (p % t) j o q ho (omega (arith, outer.1)) in
      (outer.0, inner.0, inner.1)

module _ (dev : ScullDev) (v : IsSized dev) where
  -- A position is the sum of its parts, and the parts are indices of an array of `qset_len`
  -- pointers and of a quantum of `quantum_len` bytes.
  pub position_sum :
      (p : ℕ)
      → let f = position dev p in
        (p ≡ dev.quantum_len * dev.qset_len * f.qset_p + dev.quantum_len * f.quantum_p + f.offset_p)
        × (f.quantum_p < dev.qset_len)
        × (f.offset_p < dev.quantum_len)
  unfolding position
  position_sum p =
      let t = total_len dev in
      let e : t ≡ dev.quantum_len * dev.qset_len = total_len-exact dev v in
      (
        (split_sum t dev.quantum_len dev.qset_len e v.quantum_pos v.qset_pos p),
        split_quantum t dev.quantum_len dev.qset_len e v.quantum_pos v.qset_pos p,
        mod-lt (p % t) v.quantum_pos,
      )

  -- The parts are the only ones with that sum.
  pub position_unique :
      (p i j o : ℕ)
      → j < dev.qset_len
      → o < dev.quantum_len
      → p ≡ dev.quantum_len * dev.qset_len * i + dev.quantum_len * j + o
      → position dev p ≡ record { qset_p = i; quantum_p = j; offset_p = o }
  unfolding position
  position_unique p i j o hj ho h =
      let t = total_len dev in
      let e : t ≡ dev.quantum_len * dev.qset_len = total_len-exact dev v in
      let u =
        split_unique t dev.quantum_len dev.qset_len e v.quantum_pos v.qset_pos p i j o hj ho h in
      λ n. record { qset_p = u.0 n; quantum_p = u.1 n; offset_p = u.2 n }

  -- Within a quantum only the offset grows.
  pub position-add :
      (p d : ℕ)
      → let f = position dev p in
        f.offset_p + d < dev.quantum_len
        → position dev (p + d)
          ≡ record { qset_p = f.qset_p; quantum_p = f.quantum_p; offset_p = f.offset_p + d }
  position-add p d h =
      let f = position dev p in
      let s = position_sum p in
      position_unique (p + d) f.qset_p f.quantum_p (f.offset_p + d) s.1 h (omega (arith, s))

  -- Two positions in one quantum differ as their offsets do.
  pub position_same :
      (p p' : ℕ)
      → (position dev p).qset_p ≡ (position dev p').qset_p
      → (position dev p).quantum_p ≡ (position dev p').quantum_p
      → p + (position dev p').offset_p ≡ p' + (position dev p).offset_p
  position_same p p' hi hj =
      let l = dev.quantum_len * dev.qset_len in
      omega (
        arith,
        position_sum p,
        position_sum p',
        ap (λ (m : ℕ). l * m) hi,
        ap (λ (m : ℕ). dev.quantum_len * m) hj,
      )

-- Only the two sizes matter.
module _ (dev dev' : ScullDev) (q : dev'.quantum_len ≡ dev.quantum_len)
    (l : dev'.qset_len ≡ dev.qset_len) where
  pub IsSized-same : IsSized dev → IsSized dev'
  IsSized-same v = record {
    quantum_pos = rw q v.quantum_pos;
    qset_pos = rw l v.qset_pos;
    fits = rw (q, l) v.fits;
  }

  pub position_same_sizes : (p : ℕ) → position dev' p ≡ position dev p
  unfolding position
  position_same_sizes p = ground arith
