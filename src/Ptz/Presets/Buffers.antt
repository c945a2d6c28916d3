-- ===== src/Ptz/Presets/Buffers.antt =====
-- The arrays that SetPreset of src/ptz_service.c writes a name and a token into.
use thingino_onvif.Base.Int.{ℤ, pos}
use thingino_onvif.Base.{
  ℕ, ◌≤◌, List, ◌++◌, none, some, ◌≡◌, ◌↔◌, sym, ap, arith, Bytes, length, ltb, length-append, inl,
  inr, Bool-cases, ◌∙◌,
}
use thingino_onvif.Ptz.Numbers.{print-length_le, print-length_gt}
use thingino_onvif.Ptz.Presets.{Preset, init_presets, stored, preset_prefix}
use thingino_onvif.Ptz.Presets.Set.{
  World, new_name, chosen, check_set_preset, prepare_set_preset, set_preset, find_name, token_out,
  print_int, name_size,
}
use thingino_onvif.Ptz.{PtzNode, PtzRequest, served, undefined}
use thingino_onvif.Text.Decimal.{print}

stored_overrun : (size : ℕ) (s : Bytes) → size ≤ length s → stored size s ≡ undefined
unfolding stored
stored_overrun size s h = ground arith

pub stored-eq_served : (size : ℕ) (s t : Bytes) → stored size s ≡ served t → s ≡ t
unfolding stored
stored-eq_served size s t h = ground arith

chosen_overrun :
    (uuid s : Bytes) (presets : List Preset)
    → name_size ≤ length s
    → chosen uuid none (some s) presets ≡ undefined
unfolding chosen new_name
chosen_overrun uuid s presets h = rw (stored_overrun name_size s h)

-- The name of a new preset is copied before it is measured: with a name of 44 bytes or more a request
-- that passes the first checks has no defined behaviour, whatever the list of presets and the commands
-- are.
set_preset_long_name :
    (node : PtzNode) (req : PtzRequest) (w : World) (s : Bytes)
    → check_set_preset node req w ≡ served tt
    → req.body "PresetToken" ≡ none
    → req.body "PresetName" ≡ some s
    → name_size ≤ length s
    → set_preset node req w ≡ (none, undefined)
unfolding set_preset prepare_set_preset
set_preset_long_name node req w s checked new named long =
    rw (checked, new, named) (rw (chosen_overrun w.uuid s (init_presets node w.before) long))

pub stored-undefined : (size : ℕ) (s : Bytes) → (stored size s ≡ undefined) ↔ (size ≤ length s)
unfolding stored
stored-undefined size s = ground arith

pub token_out_found :
    (name : Bytes) (presets : List Preset) (p : Preset)
    → find_name name presets ≡ some p
    → token_out name presets ≡ stored 16 (preset_prefix ++ print_int p.number)
unfolding token_out
token_out_found name presets p found = rw (found, token_out)

digits_overrun : (n : ℕ) → (16 ≤ length (preset_prefix ++ print n)) ↔ (1000 ≤ n)
digits_overrun n = (
  λ h. elim (Bool-cases (ltb n 1000)) [
    | inl small ↦
        let few = print-length_le n 2 (ground arith) in
        absurd (omega (arith, length-append preset_prefix (print n)))
    | inr large ↦ ground arith
  ],
  λ h. omega (arith, length-append preset_prefix (print n), print-length_gt n 3 h),
)

-- The token in the reply of SetPreset overruns its array exactly when the number of the preset has
-- four digits or more, if it is not negative.
pub token_out-undefined :
    (name : Bytes) (presets : List Preset) (p : Preset) (n : ℕ)
    → find_name name presets ≡ some p
    → p.number ≡ pos n
    → (token_out name presets ≡ undefined) ↔ (1000 ≤ n)
token_out-undefined name presets p n found number =
    let text =
      token_out_found name presets p found
      ∙ ap (λ (m : ℤ). stored 16 (preset_prefix ++ print_int m)) number in
    let size = stored-undefined 16 (preset_prefix ++ print n) in
    let digits = digits_overrun n in
    (λ h. digits.0 (size.0 (sym text ∙ h)), λ h. text ∙ size.1 (digits.1 h))
