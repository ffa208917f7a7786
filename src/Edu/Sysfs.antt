-- ===== src/Edu/Sysfs.antt =====
-- The files `version` and `inverse` of edu/sysfs.c. What `sscanf` gives is an argument.
use ldd3_workshop.Prelude.{
  ℕ, ◌+◌, ◌*◌, ◌/◌, ◌%◌, ◌^◌, ◌<◌, ◌≤◌, ◌≡◌, ◌⊎◌, Option, none, some, ◌∷◌, ltb, if◌then◌else◌,
  arith,
}
use ldd3_workshop.Kernel.{Ret, ok, err, einval}
use ldd3_workshop.Edu.State.{QeduDevice}

-- QEDU_INVERSE_REG.
abbrev pub qedu_inverse_reg : ℕ
qedu_inverse_reg = 4

-- QEDU_MAJOR_VERSION and QEDU_MINOR_VERSION, on the 32 bits of `id`.
unfoldable pub qedu_major_version : ℕ → ℕ
qedu_major_version id = id / 2 ^ 24

unfoldable pub qedu_minor_version : ℕ → ℕ
qedu_minor_version id = id * 2 ^ 8 % 2 ^ 32 / 2 ^ 24

-- The two numbers that `version_show` prints.
abbrev pub version_show : ℕ → ℕ × ℕ
version_show id = (qedu_major_version id, qedu_minor_version id)

-- What `inverse_show` prints, in hexadecimal digits: the register, read with the lock held.
abbrev pub inverse_show : (ℕ → ℕ) → ℕ
inverse_show readl = readl qedu_inverse_reg

-- UINT_MAX.
abbrev pub uint_max : ℕ
uint_max = 4294967295

-- `val` after `sscanf`: what it read, or else what was there before.
abbrev pub scanned : Option ℕ → ℕ → ℕ
scanned (some val) garbage = val
scanned none garbage = garbage

unfoldable pub inverse_store : Option ℕ → ℕ → ℕ → QeduDevice → Ret × QeduDevice
inverse_store input garbage count edu =
    let val = scanned input garbage in
    if ltb uint_max val then (err einval, edu) else (
      ok count,
      record edu { writes = record { reg = qedu_inverse_reg; value = val } ∷ edu.writes },
    )

-- The two numbers of `version` fit a byte each, and are the upper two bytes of the 32 bits of `id`.
pub version_show_lem :
    (id : ℕ)
    → id < 2 ^ 32
    → let (major, minor) = version_show id in
      (major < 256) × (minor < 256) × (major * 2 ^ 24 + minor * 2 ^ 16 + id % 2 ^ 16 ≡ id)
unfolding qedu_major_version qedu_minor_version
version_show_lem id small = (omega arith, omega arith, omega arith)

-- A store to `inverse` refuses a number of more than 32 bits with EINVAL and changes nothing, or
-- returns the length it was given and writes the number, of 32 bits, to the register, and nothing
-- else. Where `sscanf` read no number, the number is the one that `val` held by chance.
pub inverse_store_lem :
    (input : Option ℕ) (garbage count : ℕ) (edu : QeduDevice)
    → let val = scanned input garbage in
      let r = inverse_store input garbage count edu in
      ((2 ^ 32 ≤ val) × (r ≡ (err einval, edu)))
      ⊎ ((val < 2 ^ 32)
          × (r.0 ≡ ok count)
          × (r.1 ≡ record edu {
            writes = record { reg = qedu_inverse_reg; value = val } ∷ edu.writes;
          }))
unfolding inverse_store
inverse_store_lem input garbage count edu = ground arith
