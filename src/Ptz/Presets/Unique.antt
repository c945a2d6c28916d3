-- ===== src/Ptz/Presets/Unique.antt =====
-- What SetPreset of src/ptz_service.c lets through to its command.
use thingino_onvif.Base.Int.{ℤ, negsuc, equal_ℤ, equal_ℤ_iff}
use thingino_onvif.Base.{
  ℕ, ◌<◌, true, false, List, [], ◌∷◌, Option, none, some, ◌≡◌, ◌⊎◌, inl, inr, refl, arith, Bytes,
  length, All, ltb, Bool-cases,
}
use thingino_onvif.Ptz.Presets.{
  Preset, Command, labelled, init_presets, stored, any_number, preset_prefix, missing_preset,
}
use thingino_onvif.Ptz.Presets.Set.{
  World, has_space, is_bad_name, is_taken, find_number, new_name, old_name, check_set_preset,
  chosen, prepare_set_preset, set_preset, set_preset-eq-ran, name_size, own_or_made, invalid_name,
  preset_exists,
}
use thingino_onvif.Ptz.Serves.{Serves, Serves-bind, Serves-then, Serves-unless, Serves-elim}
use thingino_onvif.Ptz.{
  need-eq-served, PtzNode, PtzRequest, action_failed, Handled, served, need, number_behind,
}
use thingino_onvif.Text.Query.{equal_ignoring_case}

-- No preset but the one with the own number has the name.
abbrev pub IsFree : Option ℤ → Bytes → List Preset → Type 0
IsFree own name = All (λ p. (own ≡ some p.number) ⊎ (equal_ignoring_case p.name name ≡ false))

-- A name that fits its array, has no space and is not taken.
pub record IsGoodName (own : Option ℤ) (name : Bytes) (presets : List Preset) : Type 0 where
  pub no_space : has_space name ≡ false
  pub given : 0 < length name
  pub fits : length name < name_size
  pub free : IsFree own name presets

is_taken-IsFree :
    (own : Option ℤ) (name : Bytes) (ps : List Preset)
    → is_taken own name ps ≡ false
    → IsFree own name ps
unfolding is_taken
is_taken-IsFree own name [] h = tt
is_taken-IsFree none name (p ∷ ps) h =
    (inr (ground arith), is_taken-IsFree none name ps (ground arith))
is_taken-IsFree (some n) name (p ∷ ps) h = (
  own_or_other (Bool-cases (equal_ℤ p.number n)),
  is_taken-IsFree (some n) name ps (ground arith),
)
  where
    own_or_other :
        ((equal_ℤ p.number n ≡ true) ⊎ (equal_ℤ p.number n ≡ false))
        → (some n ≡ some p.number) ⊎ (equal_ignoring_case p.name name ≡ false)
    own_or_other (inl same) = inl (cc ((equal_ℤ_iff p.number n).0 same))
    own_or_other (inr other) = inr (ground arith)

good_name :
    (own : Option ℤ) (name : Bytes) (presets : List Preset)
    → length name < name_size
    → is_bad_name name ≡ false
    → is_taken own name presets ≡ false
    → IsGoodName own name presets
unfolding is_bad_name
good_name own name presets fits fair free = record {
  no_space = ground arith;
  given = ground arith;
  fits = fits;
  free = is_taken-IsFree own name presets free;
}

stored-fits : (size : ℕ) (s : Bytes) → Serves (λ t. length t < size) (stored size s)
unfolding stored
stored-fits size s = elim (Bool-cases (ltb (length s) size)) [
  | inl small ↦ rw small (ground arith)
  | inr large ↦ rw large tt
]

-- The preset that a request sets again has its number.
abbrev own_of : Option Bytes → ℤ → Option ℤ
own_of none n = none
own_of (some token) n = some n

-- The command gets -1 for a new preset, and else the number of the token, which a listed preset has.
abbrev pub IsTarget : Option Bytes → ℤ → List Preset → Type 0
IsTarget none n presets = n ≡ negsuc 0
IsTarget (some token) n presets =
    (number_behind preset_prefix token ≡ some n) × (any_number n presets ≡ true)

abbrev IsChoice : Option Bytes → List Preset → ℤ × Bytes → Type 0
IsChoice token presets (n, name) =
    IsTarget token n presets × IsGoodName (own_of token n) name presets

find_number-any_number :
    (n : ℤ) (ps : List Preset) (p : Preset) → find_number n ps ≡ some p → any_number n ps ≡ true
unfolding find_number any_number
find_number-any_number n [] p h = cc
find_number-any_number n (q ∷ ps) p h = ground (arith, find_number-any_number n ps p)

new_name-IsGoodName :
    (uuid : Bytes) (preset_name : Option Bytes) (presets : List Preset)
    → Serves (λ name. IsGoodName none name presets) (new_name uuid preset_name presets)
unfolding new_name
new_name-IsGoodName uuid preset_name presets =
    let good = λ (name : Bytes). IsGoodName none name presets in
    Serves-then good _ (stored name_size (own_or_made uuid preset_name)) _
      (stored-fits name_size (own_or_made uuid preset_name))
      λ name fits. Serves-unless good (is_bad_name name) 3 invalid_name _ λ fair.
        Serves-unless good (is_taken none name presets) 4 preset_exists (served name)
          λ free. good_name none name presets fits fair free

kept_or_given :
    (kept : Bytes) (preset_name : Option Bytes)
    → length kept < name_size
    → Serves
        (λ name. length name < name_size)
        (elim preset_name as (λ _. Handled Bytes) [
          | none ↦ served kept
          | some s ↦ stored name_size s
        ])
kept_or_given kept none h = h
kept_or_given kept (some s) h = stored-fits name_size s

old_name-IsChoice :
    (token : Bytes) (preset_name : Option Bytes) (presets : List Preset)
    → Serves (IsChoice (some token) presets) (old_name token preset_name presets)
unfolding old_name
old_name-IsChoice token preset_name presets =
    Serves-bind (IsChoice (some token) presets)
      (need (number_behind preset_prefix token) 5 missing_preset) _
      λ n read.
        Serves-bind (IsChoice (some token) presets) (need (find_number n presets) 6 missing_preset)
          _
          λ p found.
            Serves-then (IsChoice (some token) presets) _ (stored name_size p.name) _
              (stored-fits name_size p.name)
              λ kept h.
                Serves-then (IsChoice (some token) presets) _ _ _ (kept_or_given kept preset_name h)
                  λ name fits.
                    Serves-unless (IsChoice (some token) presets) (is_bad_name name) 7 invalid_name
                      _
                      λ fair.
                        Serves-unless (IsChoice (some token) presets)
                          (is_taken (some n) name presets) 8 preset_exists (served (n, name))
                          λ free. (
                            (
                              need-eq-served _ 5 missing_preset read,
                              find_number-any_number n presets p
                                  (need-eq-served _ 6 missing_preset found),
                            ),
                            good_name (some n) name presets fits fair free,
                          )

chosen-IsChoice :
    (uuid : Bytes) (token preset_name : Option Bytes) (presets : List Preset)
    → Serves (IsChoice token presets) (chosen uuid token preset_name presets)
unfolding chosen
chosen-IsChoice uuid none preset_name presets =
    Serves-then _ _ (new_name uuid preset_name presets) _
      (new_name-IsGoodName uuid preset_name presets) λ name good. (refl, good)
chosen-IsChoice uuid (some token) preset_name presets = old_name-IsChoice token preset_name presets

-- What SetPreset runs, about the list before its command.
abbrev IsSetting : Option Bytes → List Preset → Command × Bytes → Type 0
IsSetting token presets (command, name') =
    (format : Bytes) × (n : ℤ) × (name : Bytes) × (command ≡ labelled format n name)
    × IsTarget token n presets
    × IsGoodName (own_of token n) name presets

prepare_set_preset-IsSetting :
    (node : PtzNode) (req : PtzRequest) (w : World)
    → Serves
        (IsSetting (req.body "PresetToken") (init_presets node w.before))
        (prepare_set_preset node req w)
unfolding prepare_set_preset
prepare_set_preset-IsSetting node req w =
    let good = IsSetting (req.body "PresetToken") (init_presets node w.before) in
    Serves-bind good (check_set_preset node req w) _ λ u checked.
      Serves-then good _
        (chosen w.uuid (req.body "PresetToken") (req.body "PresetName")
          (init_presets node w.before))
        _
        (chosen-IsChoice w.uuid (req.body "PresetToken") (req.body "PresetName")
          (init_presets node w.before))
        λ choice sound.
          Serves-bind good (need node.set_preset 9 (action_failed 9)) _
            λ format configured. (format, choice.0, choice.1, refl, sound.0, sound.1)

-- If SetPreset runs its command, whatever it answers then, the command is given a name of 1 to 43 bytes
-- without a space, which no listed preset has in any mix of capital and small letters but the one that
-- is set again; and it is given the number -1 for a new preset, or the number of the token, which a
-- listed preset has.
pub set_preset-IsGoodName :
    (node : PtzNode) (req : PtzRequest) (w : World) (command : Command)
    → (set_preset node req w).0 ≡ some command
    → (format : Bytes) × (n : ℤ) × (name : Bytes) × (command ≡ labelled format n name)
      × IsTarget (req.body "PresetToken") n (init_presets node w.before)
      × IsGoodName (own_of (req.body "PresetToken") n) name (init_presets node w.before)
set_preset-IsGoodName node req w command h =
    let (name, prepared, answered) = set_preset-eq-ran node req w command h in
    Serves-elim (IsSetting (req.body "PresetToken") (init_presets node w.before))
      (prepare_set_preset node req w) (prepare_set_preset-IsSetting node req w) prepared
