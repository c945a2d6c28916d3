-- ===== src/Imaging/Settings.antt =====
-- SetImagingSettings of src/imaging_service.c.
pub mod Find
pub mod Filter
pub mod Room
pub mod Values
pub mod Ircut
pub mod Failing
use thingino_onvif.Base.Int.{pos}
use thingino_onvif.Base.{
  ℕ, Bool, true, false, ◌&&◌, not, List, [], ◌∷◌, ◌++◌, Option, none, some, ◌==◌, ltb,
  if◌then◌else◌, Bytes, codes, equal, length,
}
use thingino_onvif.Xml.{Nodes, element, Document}
use thingino_onvif.Xml.Pointer.{Mxml, get_element_ptr}
use thingino_onvif.Imaging.{
  Floats, ImagingEntry, ImagingFault, fault, Camera, Handler, served, undefined, ◌>>=◌, ◌>>◌,
  return, need, unless, Page, ensure_imaging_available, require_imaging_entry, source_token,
}
use thingino_onvif.Imaging.Streamer.{
  FieldState, StreamerState, StateFile, lookup_field, load_imaging_state, clamp01,
  apply_imaging_changes,
}
unfoldable pub use thingino_onvif.Imaging.Settings.Find.{
  or_else, find_among, find_child_value, find_mode_level_value,
}
unfoldable pub use thingino_onvif.Imaging.Settings.Filter.{
  ircut_mode_from_string, bad_ircut, is_unspecified, supports, ircut_command, same_mode,
  change_mode, set_ircut,
}

-- The elements with a value of their own, and those with a level, with the keys of the streamer.
abbrev pub prudynt_map : List (Bytes × Bytes)
prudynt_map =
    (codes "Brightness", codes "brightness")
    ∷ (codes "ColorSaturation", codes "saturation")
    ∷ (codes "Contrast", codes "contrast")
    ∷ (codes "Sharpness", codes "sharpness")
    ∷ (codes "NoiseReduction", codes "noise_reduction")
    ∷ []

abbrev pub prudynt_mode_level_map : List (Bytes × Bytes)
prudynt_mode_level_map =
    (codes "BacklightCompensation", codes "backlight")
    ∷ (codes "WideDynamicRange", codes "wide_dynamic_range")
    ∷ (codes "ToneCompensation", codes "tone")
    ∷ (codes "Defogging", codes "defog")
    ∷ []

-- The array of changes has a place for each entry of the first table.
abbrev pub max_commands : ℕ
max_commands = length prudynt_map

-- What the streamer does: the file before the request, whether the pipe takes a line, and the files
-- after each interval of the wait.
pub record StreamerRun (Double : Type 0) : Type 0 where
  pub before : StateFile Double
  pub takes : Bool
  pub files : ℕ → StateFile Double

abbrev pub missing_settings : ImagingFault
missing_settings =
    fault "Sender" "ter:InvalidArgVal" "ter:NoSource" "Missing imaging settings"
      "ImagingSettings element is required"

abbrev pub not_applied : ImagingFault
not_applied =
    fault "Receiver" "ter:Action" "ter:ConfigModify" "Failed to apply imaging parameters"
      "Streamer rejected one or more imaging values"

abbrev begins_with_percent : Bytes → Bool
begins_with_percent [] = false
begins_with_percent (c ∷ s) = c == b'%'

-- Storing a change in the array.
unfoldable pub stored_command : {Float : Type 0} {A : Type 0} → A → List A → Handler Float (List A)
stored_command c cs w = if ltb (length cs) max_commands then served (cs ++ c ∷ []) w else undefined

abbrev pub add_change : {Float : Type 0} {A : Type 0} → Option A → List A → Handler Float (List A)
add_change none cs = return cs
add_change (some c) cs = stored_command c cs

module _ (f : Floats) where
  open f use {
    Float, lt, le, nought, one, ten, byte_max, sub, div, Double, strtod, is_unit, percent, to_float,
  }

  -- The number, and whether it is a part of the range already.
  unfoldable pub parse_imaging_value : Bytes → Option (Float × Bool)
  parse_imaging_value s = elim (strtod s) [
    | none ↦ none
    | some (value, rest) ↦
        if begins_with_percent rest
        then some (to_float (percent value), true)
        else some (to_float value, is_unit value)
  ]

  unfoldable pub fallback_max : Bytes → Float
  unfolding equal
  fallback_max key = if equal key (codes "backlight") then ten else byte_max

  abbrev pub field_in : Bytes → Option (StreamerState Float) → Option (FieldState Float)
  field_in key none = none
  field_in key (some state) = lookup_field state key

  unfoldable pub fallback_value : Bytes → Float → Float
  unfolding clamp01 fallback_max
  fallback_value key value =
      let span = sub (fallback_max key) nought in
      if le span nought then clamp01 f value else clamp01 f (div (sub value nought) span)

  abbrev pub scaled : Bytes → Float → Option (FieldState Float) → Float
  scaled key value none = fallback_value key value
  scaled key value (some field) =
      if lt field.min field.max && lt nought (sub field.max field.min)
      then clamp01 f (div (sub value field.min) (sub field.max field.min))
      else fallback_value key value

  unfoldable pub normalize_with_state : Bytes → Float → Bool → Option (StreamerState Float) → Float
  unfolding clamp01 fallback_value lookup_field
  normalize_with_state key value true state = clamp01 f value
  normalize_with_state key value false state = scaled key value (field_in key state)

  -- The change_of for a key that a text asks for; a text that is missing or no number asks for none.
  unfoldable pub change_of :
      Option (StreamerState Float) → Bytes → Option Bytes → Option (Bytes × Float)
  change_of state key none = none
  change_of state key (some value) = elim (parse_imaging_value value) [
    | none ↦ none
    | some (parsed, is_normalized) ↦ some (key, normalize_with_state key parsed is_normalized state)
  ]

  -- The two loops, which find the texts in different ways.
  unfoldable pub collect :
      (Bytes → Option Bytes)
      → Option (StreamerState Float)
      → List (Bytes × Bytes)
      → List (Bytes × Float)
      → Handler Float (List (Bytes × Float))
  collect find state [] commands = return commands
  collect find state ((tag, key) ∷ entries) commands =
      add_change (change_of state key (find tag)) commands >>= collect find state entries

  -- The changes that the settings ask for, from both tables.
  unfoldable pub requested_changes :
      Nodes → Option (StreamerState Float) → Handler Float (List (Bytes × Float))
  unfolding collect find_child_value find_mode_level_value
  requested_changes settings state = do
    values ← collect (λ tag. find_child_value tag settings) state prudynt_map []
    collect (λ tag. find_mode_level_value tag settings) state prudynt_mode_level_map values

  -- The line that is written, if any.
  abbrev pub logged : Option Bytes → Camera Float → Camera Float
  logged none w = w
  logged (some line) w = record w { payloads = line ∷ w.payloads }

  abbrev pub log_payload : Option Bytes → Handler Float (Unit {0})
  log_payload line w = served tt (logged line w)

  -- The changes are applied, if there are any.
  unfoldable pub apply_commands :
      List (Bytes × Float) → StreamerRun Double → Handler Float (Unit {0})
  unfolding apply_imaging_changes
  apply_commands [] run = return tt
  apply_commands (c ∷ cs) run = do
    let result = apply_imaging_changes f (c ∷ cs) (pos 1500) run.takes run.files
    log_payload result.0
    unless (not result.1) not_applied

  abbrev pub settings_done : Page
  settings_done = ("imaging_service_files/SetImagingSettings.xml", [])

  -- The settings of a source, whose element is given: first its cut filter, then the changes.
  unfoldable pub set_source :
      ℕ → ImagingEntry Float → Option Nodes → StreamerRun Double → Handler Float Page
  unfolding apply_commands
  set_source i e settings_element run = do
    settings ← need settings_element missing_settings
    set_ircut i e (find_child_value (codes "IrCutFilter") settings)
    commands ← requested_changes settings (load_imaging_state f run.before)
    apply_commands commands run
    return settings_done

  unfoldable pub set_imaging_settings : Mxml → Document → StreamerRun Double → Handler Float Page
  unfolding set_source
  set_imaging_settings m doc run = do
    ensure_imaging_available
    (i, e) ← require_imaging_entry (source_token doc)
    set_source i e (get_element_ptr m doc none (codes "ImagingSettings") (some (codes "Body"))) run
