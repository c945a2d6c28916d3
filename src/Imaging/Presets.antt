-- ===== src/Imaging/Presets.antt =====
-- The imaging presets of src/imaging_service.c: GetPresets, GetCurrentPreset and SetCurrentPreset.
pub mod Current
pub mod Chosen
use thingino_onvif.Base.{
  ℕ, Bool, true, false, not, List, [], ◌∷◌, ◌++◌, Option, none, some, if◌then◌else◌, Bytes, codes,
  String,
}
use thingino_onvif.Text.Query.{equal_ignoring_case}
use thingino_onvif.Xml.{Document, get_element}
use thingino_onvif.Imaging.{
  Floats, PresetEntry, ImagingEntry, ImagingFault, fault, Camera, Handler, Outcome, served, refused,
  undefined, ◌>>=◌, ◌>>◌, return, refuse, need, unless, Page, ensure_imaging_available,
  require_imaging_entry, source_token, filled, or_text, store, fits_command, run_built,
}
use thingino_onvif.Imaging.Builder.{Pieces}
use thingino_onvif.Imaging.Reports.{report_of}

abbrev pub preset_not_supported : String → ImagingFault
preset_not_supported detail =
    fault "Receiver" "ter:ActionNotSupported" "ter:ActionNotSupported" "Imaging presets unsupported"
      detail

abbrev pub preset_invalid : String → ImagingFault
preset_invalid detail =
    fault "Sender" "ter:InvalidArgVal" "ter:NoSource" "Invalid imaging preset token" detail

abbrev pub without_presets : ImagingFault
without_presets = preset_not_supported "This video source does not define imaging presets"

abbrev pub missing_token : ImagingFault
missing_token = preset_invalid "PresetToken element is required"

abbrev pub unknown_preset : ImagingFault
unknown_preset = preset_invalid "Requested Imaging Preset token is not available for this source"

abbrev pub command_failed : ImagingFault
command_failed = preset_not_supported "Failed to execute backend command for the requested preset"

abbrev pub is_token : Bytes → Option Bytes → Bool
is_token token none = false
is_token token (some t) = equal_ignoring_case t token

unfoldable pub find_preset : Bytes → List PresetEntry → Option PresetEntry
unfolding equal_ignoring_case
find_preset token [] = none
find_preset token (p ∷ ps) =
    let later = find_preset token ps in if is_token token p.token then some p else later

-- A preset without a name is called by its token, and its type is `Custom` where it has none.
abbrev pub name_of : PresetEntry → Bytes → Bytes
name_of p token = or_text (filled p.name) token

abbrev pub type_of : PresetEntry → Bytes
type_of p = or_text (filled p.kind) (codes "Custom")

abbrev preset_piece : PresetEntry → Bytes → Bytes
preset_piece p token =
    codes "<timg:Preset token=\""
    ++ (token
        ++ (codes "\" type=\""
            ++ (type_of p
                ++ (codes "\">\n<tt:Name>"
                    ++ (name_of p token ++ codes "</tt:Name>\n</timg:Preset>\n")))))

unfoldable pub append_preset_element : PresetEntry → Pieces
append_preset_element p = elim p.token [ none ↦ [] | some token ↦ preset_piece p token ∷ [] ]

unfoldable pub build_imaging_presets_xml : List PresetEntry → Pieces
unfolding append_preset_element
build_imaging_presets_xml [] = []
build_imaging_presets_xml (p ∷ ps) = append_preset_element p ++ build_imaging_presets_xml ps

abbrev pub pieces_of : Option PresetEntry → Pieces
pieces_of none = []
pieces_of (some p) = append_preset_element p

abbrev pub current_pieces : Option Bytes → List PresetEntry → Pieces
current_pieces none presets = []
current_pieces (some token) presets = pieces_of (find_preset token presets)

unfoldable pub build_current_preset_xml : {Float : Type 0} → ImagingEntry Float → Pieces
unfolding append_preset_element find_preset
build_current_preset_xml e = current_pieces e.current_preset_token e.presets

-- The format of the command: the preset's own, or that of its source.
unfoldable pub preset_template : {Float : Type 0} → ImagingEntry Float → PresetEntry → Option Bytes
preset_template e p = elim (filled p.command) [
  | none ↦ filled e.cmd_apply_preset
  | some own ↦ some own
]

unfoldable pub set_current_preset :
    {Float : Type 0} → Option Bytes → ImagingEntry Float → ImagingEntry Float
set_current_preset token e = record e { current_preset_token = token }

abbrev pub has_presets : List PresetEntry → Bool
has_presets [] = false
has_presets (p ∷ ps) = true

abbrev pub no_presets : {Float : Type 0} → ImagingEntry Float → Bool
no_presets e = if has_presets e.presets then false else true

abbrev pub chosen_page : Page
chosen_page = ("imaging_service_files/SetCurrentPreset.xml", [])

unfoldable pub imaging_get_presets : {Float : Type 0} → Document → Handler Float Page
unfolding ensure_imaging_available require_imaging_entry build_imaging_presets_xml report_of
    get_element
imaging_get_presets doc = do
  ensure_imaging_available
  (i, e) ← require_imaging_entry (source_token doc)
  unless (no_presets e) without_presets
  presets ←
      need (filled (some (report_of (build_imaging_presets_xml e.presets))))
        (preset_not_supported "Failed to build imaging preset list for this source")
  return ("imaging_service_files/GetPresets.xml", ("%IMAGING_PRESETS%", presets) ∷ [])

-- The page of the current preset.
abbrev pub current_page : Pieces → Page
current_page pieces =
    ("imaging_service_files/GetCurrentPreset.xml", ("%CURRENT_PRESET%", report_of pieces) ∷ [])

unfoldable pub get_current_preset : {Float : Type 0} → Document → Handler Float Page
unfolding ensure_imaging_available require_imaging_entry build_current_preset_xml report_of
    get_element
get_current_preset doc = do
  ensure_imaging_available
  (i, e) ← require_imaging_entry (source_token doc)
  return (current_page (build_current_preset_xml e))

module _ (f : Floats) where
  open f use {Float, format_texts}

  unfoldable pub formatted_preset : Option Bytes → PresetEntry → Option Bytes
  unfolding fits_command
  formatted_preset none p = none
  formatted_preset (some template) p =
      fits_command
        (format_texts template (or_text p.token []) (name_of p (or_text p.token [])) (type_of p))

  unfoldable pub execute_preset_command : ImagingEntry Float → PresetEntry → Handler Float Bool
  unfolding preset_template formatted_preset run_built
  execute_preset_command e p = run_built (formatted_preset (preset_template e p) p)

  -- The choice of a preset of a source.
  unfoldable pub choose_preset : ℕ → ImagingEntry Float → Option Bytes → Handler Float Page
  unfolding find_preset execute_preset_command set_current_preset
  choose_preset i e token_element = do
    unless (no_presets e) without_presets
    preset_token ← need (filled token_element) missing_token
    preset ← need (find_preset preset_token e.presets) unknown_preset
    built ← execute_preset_command e preset
    unless (not built) command_failed
    store i (set_current_preset preset.token e)
    return chosen_page

  unfoldable pub imaging_set_current_preset : Document → Handler Float Page
  unfolding ensure_imaging_available require_imaging_entry choose_preset get_element
  imaging_set_current_preset doc = do
    ensure_imaging_available
    (i, e) ← require_imaging_entry (source_token doc)
    choose_preset i e (get_element doc (codes "PresetToken") (codes "Body"))
