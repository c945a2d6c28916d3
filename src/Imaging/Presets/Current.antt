-- ===== src/Imaging/Presets/Current.antt =====
-- The preset that find_preset of src/imaging_service.c gives for a token.
use thingino_onvif.Base.{
  ℕ, zero, suc, true, false, List, [], ◌∷◌, some, Bytes, ◌≡◌, Bool-cases, inl, inr, some-eq_inj,
}
use thingino_onvif.Imaging.{PresetEntry}
use thingino_onvif.Imaging.Presets.{is_token, find_preset}

-- The preset stands at the position, it has the token, in any mix of capital and small letters, and none
-- before it has.
abbrev pub IsFirstPreset : Bytes → ℕ → List PresetEntry → PresetEntry → Type 0
IsFirstPreset token k [] p = ⊥
IsFirstPreset token zero (q ∷ ps) p = (is_token token q.token ≡ true) × (q ≡ p)
IsFirstPreset token (suc k) (q ∷ ps) p =
    (is_token token q.token ≡ false) × IsFirstPreset token k ps p

pub find_preset-IsFirstPreset :
    (token : Bytes) (ps : List PresetEntry) (p : PresetEntry)
    → find_preset token ps ≡ some p
    → (k : ℕ) × IsFirstPreset token k ps p
unfolding find_preset
find_preset-IsFirstPreset token [] p h = cc
find_preset-IsFirstPreset token (q ∷ ps) p h = elim (Bool-cases (is_token token q.token)) [
  | inl here ↦ (0, (here, some-eq_inj (rw here at h)))
  | inr other ↦
      let (k, first) = find_preset-IsFirstPreset token ps p (rw other at h) in
      (suc k, (other, first))
]
