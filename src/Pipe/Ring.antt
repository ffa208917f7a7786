-- ===== src/Pipe/Ring.antt =====
-- The bytes that wait in a pipe device of scull/pipe.c, in the order in which they were written.
use mathlib.Core.Path.{ap₂}
use native.Mathlib.Nat.{zero-add, add-zero, suc-add, mod-eq_of_lt, mod-eq-sub-mod}
use native.Mathlib.Decide.{dec_lt}
use ldd3_workshop.Prelude.{
  ℕ, zero, suc, ◌+◌, ◌-◌, ◌^◌, ◌≤◌, ◌<◌, ◌≡◌, ◌↔◌, refl, sym, ap, ◌∙◌, Option, none, some, List, [],
  ◌∷◌, ◌++◌, arith, ltb, leb, add64, sub64, ◌%◌, ◌≢◌, ◌⊎◌, length, if◌then◌else◌,
}
use ldd3_workshop.Kernel.{Bytes}
use ldd3_workshop.Pipe.Device.{Buffer, ScullPipe, spacefree}
use ldd3_workshop.Pipe.Io.{advance}

-- The values of `f` at `i` and the numbers after it, `n` of them.
unfoldable pub tabulate : Bytes → ℕ → ℕ → List ℕ
tabulate f i zero = []
tabulate f i (suc n) = f i ∷ tabulate f (i + 1) n

pub tabulate-append :
    (f : Bytes) (i n m : ℕ) → tabulate f i (n + m) ≡ tabulate f i n ++ tabulate f (i + n) m
unfolding tabulate
tabulate-append f i zero m = rw (zero-add, add-zero)
tabulate-append f i (suc n) m =
    let e : i + 1 + n ≡ i + suc n = omega arith in
    rw (suc-add, ← e) (ap (λ r. f i ∷ r) (tabulate-append f (i + 1) n m))

pub tabulate_ext :
    (f g : Bytes) (i j n : ℕ)
    → ((d : ℕ) → d < n → f (i + d) ≡ g (j + d))
    → tabulate f i n ≡ tabulate g j n
unfolding tabulate
tabulate_ext f g i j zero h = refl
tabulate_ext f g i j (suc n) h =
    ap₂ ◌∷◌ (ap f (sym (add-zero i)) ∙ h 0 (omega arith) ∙ ap g (add-zero j)) (
      tabulate_ext f g (i + 1) (j + 1) n λ d l.
        let e : i + 1 + d ≡ i + suc d = omega arith in
        let e' : j + suc d ≡ j + 1 + d = omega arith in ap f e ∙ h (suc d) (omega arith) ∙ ap g e')

pub length-tabulate : (f : Bytes) (i n : ℕ) → length (tabulate f i n) ≡ n
unfolding tabulate
length-tabulate f i zero = refl
length-tabulate f i (suc n) = ap suc (length-tabulate f (i + 1) n)

-- The index `i` places after `p`, round a buffer of `l` bytes.
abbrev pub around : ℕ → ℕ → ℕ → ℕ
around l p i = if ltb (p + i) l then p + i else p + i - l

-- How many bytes wait.
unfoldable pub fill : ScullPipe → ℕ
fill dev = if leb dev.rp dev.wp then dev.wp - dev.rp else dev.wp + dev.buf_len - dev.rp

-- The waiting bytes, where the buffer holds `b`.
unfoldable pub waiting : Bytes → ScullPipe → List ℕ
waiting b dev = tabulate (λ i. b (around dev.buf_len dev.rp i)) 0 (fill dev)

abbrev pub size_of : Option Buffer → ℕ
size_of none = 0
size_of (some b) = b.size

abbrev pub bytes_of : Option Buffer → Bytes
bytes_of none = λ _. 0
bytes_of (some b) = b.bytes

-- The bytes that wait in a device, the oldest first.
unfoldable pub contents : ScullPipe → List ℕ
contents dev = waiting (bytes_of dev.buf) dev

-- A device that is open: the buffer is there and large enough, and the pointers lie in it.
pub record IsOpen (dev : ScullPipe) : Type 0 where
  pub some_room : 0 < dev.buf_len
  pub small : dev.buf_len < 2 ^ 63
  pub allocated : dev.buf_len ≤ size_of dev.buf
  pub end_is : dev.end ≡ dev.buf_len
  pub rp_in : dev.rp < dev.buf_len
  pub wp_in : dev.wp < dev.buf_len

gap :
    (r w l : ℕ)
    → r < l
    → w < l
    → r ≢ w
    → (r + l - w) % l + (if leb r w then w - r else w + l - r) ≡ l
gap r w l hr hw ne = elim (dec_lt r w) [
  | yes h ↦ ground (arith, mod-eq_of_lt {n = r + l - w} {m = l} (omega arith))
  | no h ↦ ground (
    arith,
    mod-eq-sub-mod {n = r + l - w} {m = l} (omega arith),
    mod-eq_of_lt {n = r + l - w - l} {m = l} (omega arith),
  )
]

gap_exact :
    (dev : ScullPipe)
    → IsOpen dev
    → sub64 (add64 dev.rp dev.buf_len) dev.wp ≡ dev.rp + dev.buf_len - dev.wp
gap_exact dev v = omega arith

pub fill-lt : (dev : ScullPipe) → IsOpen dev → fill dev < dev.buf_len
unfolding fill
fill-lt dev v = ground arith

-- One byte of the buffer always stays free: what waits, what is free and that byte make up the
-- whole buffer. So the free space is 0 only if `buf_len - 1` bytes wait.
pub spacefree-fill : (dev : ScullPipe) → IsOpen dev → spacefree dev + fill dev + 1 ≡ dev.buf_len
unfolding spacefree fill
spacefree-fill dev v =
    ground (arith, gap dev.rp dev.wp dev.buf_len v.rp_in v.wp_in, gap_exact dev v)

pub length-contents : (dev : ScullPipe) → length (contents dev) ≡ fill dev
unfolding contents waiting
length-contents dev = length-tabulate _ 0 (fill dev)

pub fill-zero : (dev : ScullPipe) → IsOpen dev → (fill dev ≡ 0) ↔ (dev.rp ≡ dev.wp)
unfolding fill
fill-zero dev v = ground arith

-- Bytes taken from the front.
module _ (b : Bytes) (dev : ScullPipe) (v : IsOpen dev) (n : ℕ) (le : n ≤ fill dev)
    (straight : dev.rp + n ≤ dev.buf_len) where
  abbrev pub taken : ScullPipe
  taken = record dev { rp = advance dev dev.rp n }

  pub fill-taken : fill taken + n ≡ fill dev
  unfolding fill
  fill-taken = ground arith

  pub waiting-taken : waiting b dev ≡ tabulate b dev.rp n ++ waiting b taken
  unfolding waiting
  waiting-taken =
      let m = fill taken in
      let f : Bytes = λ i. b (around dev.buf_len dev.rp i) in
      let g : Bytes = λ i. b (around dev.buf_len (advance dev dev.rp n) i) in
      let e : fill dev ≡ n + m = omega (arith, fill-taken) in
      ap (tabulate f 0) e
      ∙ tabulate-append f 0 n m
      ∙ ap₂ ◌++◌ (tabulate_ext f b 0 dev.rp n λ d l. ap b (ground arith))
          (tabulate_ext f g (0 + n) 0 m λ d l. ap b (ground (arith, fill-taken, fill-lt dev v)))

-- Bytes put at the back.
module _ (b b' : Bytes) (dev : ScullPipe) (v : IsOpen dev) (n : ℕ) (le : n ≤ spacefree dev)
    (straight : dev.wp + n ≤ dev.buf_len) where
  abbrev pub extended : ScullPipe
  extended = record dev { wp = advance dev dev.wp n }

  pub fill-extended : fill extended ≡ fill dev + n
  unfolding fill
  fill-extended = ground (arith, spacefree-fill dev v)

  outside :
      (d : ℕ)
      → d < fill dev
      → let i = around dev.buf_len dev.rp (0 + d) in (i < dev.wp) ⊎ (dev.wp + n ≤ i)
  unfolding fill
  outside d h = ground (arith, spacefree-fill dev v)

  landing : (d : ℕ) → d < n → around dev.buf_len dev.rp (0 + fill dev + d) ≡ dev.wp + d
  unfolding fill
  landing d h = ground (arith, spacefree-fill dev v)

  pub waiting-extended :
      ((j : ℕ) → (j < dev.wp) ⊎ (dev.wp + n ≤ j) → b' j ≡ b j)
      → waiting b' extended ≡ waiting b dev ++ tabulate b' dev.wp n
  unfolding waiting
  waiting-extended same =
      let l = dev.buf_len in
      let f : Bytes = λ i. b' (around l dev.rp i) in
      let g : Bytes = λ i. b (around l dev.rp i) in
      ap (tabulate f 0) fill-extended
      ∙ tabulate-append f 0 (fill dev) n
      ∙ ap₂ ◌++◌
          (tabulate_ext f g 0 0 (fill dev) λ d h. same (around l dev.rp (0 + d)) (outside d h))
          (tabulate_ext f b' (0 + fill dev) dev.wp n λ d h. ap b' (landing d h))

  -- Bytes written into the free part do not disturb those that wait.
  pub waiting_kept :
      ((j : ℕ) → (j < dev.wp) ⊎ (dev.wp + n ≤ j) → b' j ≡ b j) → waiting b' dev ≡ waiting b dev
  unfolding waiting
  waiting_kept same =
      tabulate_ext (λ i. b' (around dev.buf_len dev.rp i)) (λ i. b (around dev.buf_len dev.rp i)) 0
        0 (fill dev) (λ d h. same (around dev.buf_len dev.rp (0 + d)) (outside d h))
