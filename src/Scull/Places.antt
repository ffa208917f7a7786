-- ===== src/Scull/Places.antt =====
-- What `__scull_follow` of scull/main.c makes of a file position: the positions and the places in the
-- chain of sets are the same type.
use std.Equiv.{Iso}
use std.Univalence.{iso_to_path}
use native.Mathlib.Bridge.{le_prop}
use mathlib.Core.HLevel.{Σ_prop_path}
use ldd3_workshop.Prelude.{ℕ, ◌+◌, ◌*◌, ◌<◌, ◌≡◌, refl, sym}
use ldd3_workshop.Scull.Device.{ScullDev, Follow}
use ldd3_workshop.Scull.Io.{position}
use ldd3_workshop.Scull.Position.{IsSized, position_sum, position_unique}

-- The index of a set, of a pointer of its array, and of a byte of the quantum behind it.
abbrev pub InRange : ScullDev → Follow → Type 0
InRange dev f = (f.quantum_p < dev.qset_len) × (f.offset_p < dev.quantum_len)

abbrev pub Place : ScullDev → Type 0
Place dev = (f : Follow) × InRange dev f

abbrev pub offset_of : ScullDev → Follow → ℕ
offset_of dev f =
    dev.quantum_len * dev.qset_len * f.qset_p + dev.quantum_len * f.quantum_p + f.offset_p

module _ (dev : ScullDev) (v : IsSized dev) where
  abbrev pub place : ℕ → Place dev
  place p = let s = position_sum dev v p in (position dev p, (s.1, s.2))

  position-offset : (f : Place dev) → position dev (offset_of dev f.0) ≡ f.0
  position-offset (f, (j, o)) =
      position_unique dev v (offset_of dev f) f.qset_p f.quantum_p f.offset_p j o refl

  abbrev place-Iso : Iso ℕ (Place dev)
  place-Iso = record {
    fun = place;
    inv = λ f. offset_of dev f.0;
    rinv = λ f. Σ_prop_path (λ x. hlevel le_prop) (position-offset f);
    linv = λ p. sym (position_sum dev v p).0;
  }

-- The file positions of a device of sound sizes are its places, as types: along the path between
-- them `__scull_follow` sends a position to its place, and the place back to the position.
pub positions_are_places :
    (dev : ScullDev)
    → IsSized dev
    → (path : ◌≡◌ {A = Type 0} ℕ (Place dev)) × ((p : ℕ)
        → (coe 0 1 (i. path i) p).0 ≡ position dev p)
      × ((f : Place dev) → coe 1 0 (i. path i) f ≡ offset_of dev f.0)
positions_are_places dev v = (iso_to_path (place-Iso dev v), λ p. refl, λ f. refl)
