-- ===== src/Text/Interval.antt =====
-- `interval2sec` of src/utils.c.
pub mod Value
use thingino_onvif.Base.Int.{ℤ, pos, negsuc, ◌+ℤ◌, ◌*ℤ◌, wrap32}
use thingino_onvif.Base.{
  ℕ, zero, suc, Bool, true, false, ◌||◌, List, [], ◌∷◌, Option, none, some, ◌==◌, if◌then◌else◌,
  Bytes, codes, ◌≡◌, refl,
}
use thingino_onvif.Text.Decimal.{scan_int}

-- `%d%c`, up to `n` times; the flag says that a number came with no letter behind it.
unfoldable pub scan_pairs : ℕ → Bytes → List (ℤ × ℕ) × Bool
unfolding scan_int
scan_pairs zero s = ([], false)
scan_pairs (suc n) s = elim (scan_int s) [
  | none ↦ ([], false)
  | some (d, []) ↦ ([], true)
  | some (d, c ∷ rest) ↦ ((d, c) ∷ (scan_pairs n rest).0, (scan_pairs n rest).1)
]

-- `sscanf(interval, "PT%d%c%d%c%d%c", …)`
unfoldable pub scan_interval : Bytes → List (ℤ × ℕ) × Bool
unfolding scan_pairs
scan_interval [] = ([], false)
scan_interval (p ∷ []) = ([], false)
scan_interval (p ∷ t ∷ s) =
    let pairs = scan_pairs 3 s in
    if p == b'P' then if t == b'T' then pairs else ([], false) else ([], false)

-- The seconds in one unit.
unfoldable pub seconds_in : ℕ → Option ℕ
seconds_in c =
    if c == b's' || c == b'S'
    then some 1
    else if c == b'm' || c == b'M'
    then some 60
    else if c == b'h' || c == b'H'
    then some 3600
    else none

-- The three switches: one that meets an unknown letter returns what there is.
unfoldable pub add_pairs : ℤ → List (ℤ × ℕ) → ℤ
unfolding seconds_in ◌+ℤ◌ ◌*ℤ◌ wrap32
add_pairs ret [] = ret
add_pairs ret ((d, c) ∷ rest) = elim (seconds_in c) [
  | none ↦ ret
  | some unit ↦ add_pairs (wrap32 (ret +ℤ wrap32 (d *ℤ pos unit))) rest
]

unfoldable pub first_pair : ℤ × ℕ → List (ℤ × ℕ) → ℤ
unfolding add_pairs
first_pair (d, c) rest = elim (seconds_in c) [
  | none ↦ negsuc 1
  | some unit ↦ add_pairs (wrap32 (d *ℤ pos unit)) rest
]

unfoldable pub interval_of_pairs : List (ℤ × ℕ) × Bool → ℤ
unfolding first_pair
interval_of_pairs (pairs, true) = negsuc 0
interval_of_pairs ([], false) = negsuc 0
interval_of_pairs (p ∷ rest, false) = first_pair p rest

unfoldable pub interval2sec : Bytes → ℤ
unfolding scan_interval interval_of_pairs
interval2sec s = interval_of_pairs (scan_interval s)

one_hour : interval2sec (codes "PT1H2m3S") ≡ pos 3723
unfolding interval2sec
one_hour = refl

rejected :
    (interval2sec (codes "PT10") ≡ negsuc 0)
    × (interval2sec (codes "P1D") ≡ negsuc 0)
    × (interval2sec (codes "PT5x") ≡ negsuc 1)
unfolding interval2sec
rejected = (refl, refl, refl)
