-- ===== src/Imaging/Reports.antt =====
-- The handlers of src/imaging_service.c that report: the capabilities, the settings and options of a
-- source, merged with the state of the streamer, its focus moves and its focus status.
pub mod Elements
use thingino_onvif.Base.{
  ℕ, Bool, true, false, ◌&&◌, ◌||◌, not, List, [], ◌∷◌, ◌++◌, Option, none, some, if◌then◌else◌,
  Bytes, codes, String,
}
use thingino_onvif.Xml.{Document, get_element}
use thingino_onvif.Imaging.{
  Floats, FloatValue, ModeLevel, FocusMoveConfig, PresetEntry, ImagingEntry, ImagingFault, fault,
  Camera, Handler, served, refused, undefined, ◌>>=◌, ◌>>◌, return, unless, need, Page,
  ensure_imaging_available, require_imaging_entry, source_token, filled,
}
use thingino_onvif.Imaging.Builder.{
  Builder, Pieces, xml_builder_init, append_all, is_there, is_nonempty,
}
use thingino_onvif.Imaging.Streamer.{FieldState, StreamerState, StateFile, load_imaging_state}
use thingino_onvif.Imaging.Reports.Elements.{
  build_imaging_settings_xml, build_imaging_options_xml, build_focus_move_options_xml,
  build_focus_status_xml,
}

abbrev pub xml_buffer : ℕ
xml_buffer = 16384

-- What stands in the array of a report.
unfoldable pub report_of : Pieces → Bytes
unfolding append_all xml_builder_init
report_of pieces = (append_all (xml_builder_init xml_buffer) pieces).written

unfoldable pub apply_prudynt_float :
    {Float : Type 0} → FloatValue Float → Option (FieldState Float) → FloatValue Float
apply_prudynt_float target none = target
apply_prudynt_float target (some source) = record {
  present = true;
  value = some source.value;
  min = some source.min;
  max = some source.max;
}

unfoldable pub apply_prudynt_mode_level :
    {Float : Type 0} → ModeLevel Float → Option (FieldState Float) → ModeLevel Float
unfolding apply_prudynt_float
apply_prudynt_mode_level target none = target
apply_prudynt_mode_level target (some source) = record target {
  present = true;
  level = apply_prudynt_float target.level (some source);
}

unfoldable pub merge_prudynt_state :
    {Float : Type 0} → ImagingEntry Float → StreamerState Float → ImagingEntry Float
unfolding apply_prudynt_float apply_prudynt_mode_level
merge_prudynt_state e s = record e {
  brightness = apply_prudynt_float e.brightness s.brightness;
  color_saturation = apply_prudynt_float e.color_saturation s.saturation;
  contrast = apply_prudynt_float e.contrast s.contrast;
  sharpness = apply_prudynt_float e.sharpness s.sharpness;
  noise_reduction = apply_prudynt_float e.noise_reduction s.noise_reduction;
  backlight = apply_prudynt_mode_level e.backlight s.backlight;
  wide_dynamic_range = apply_prudynt_mode_level e.wide_dynamic_range s.wide_dynamic_range;
  tone_compensation = apply_prudynt_mode_level e.tone_compensation s.tone;
  defogging = apply_prudynt_mode_level e.defogging s.defog;
}

abbrev truth : Bool → Bytes
truth true = codes "true"
truth false = codes "false"

unfoldable pub any_command : List PresetEntry → Bool
any_command [] = false
any_command (p ∷ ps) = is_there (filled p.command) || any_command ps

-- What the capabilities say of all sources: stabilization, presets, and presets that are adaptable.
unfoldable pub any_stabilization : {Float : Type 0} → List (ImagingEntry Float) → Bool
any_stabilization [] = false
any_stabilization (e ∷ es) = e.image_stabilization.present || any_stabilization es

unfoldable pub any_presets : {Float : Type 0} → List (ImagingEntry Float) → Bool
any_presets [] = false
any_presets (e ∷ es) = is_nonempty e.presets || any_presets es

unfoldable pub any_adaptable : {Float : Type 0} → List (ImagingEntry Float) → Bool
unfolding any_command
any_adaptable [] = false
any_adaptable (e ∷ es) =
    is_there (filled e.cmd_apply_preset) || any_command e.presets || any_adaptable es

abbrev capabilities : {Float : Type 0} → List (ImagingEntry Float) → Page
capabilities es = (
  "imaging_service_files/GetServiceCapabilities.xml",
  ("%IMAGE_STABILIZATION%", truth (any_stabilization es))
      ∷ ("%IMAGING_PRESETS%", truth (any_presets es))
      ∷ ("%ADAPTABLE_PRESET%", truth (any_adaptable es))
      ∷ [],
)

unfoldable pub imaging_get_service_capabilities : {Float : Type 0} → Handler Float Page
unfolding ensure_imaging_available any_stabilization any_presets any_adaptable
imaging_get_service_capabilities = do
  ensure_imaging_available
  λ w. served (capabilities w.imaging) w

abbrev pub focus_not_supported : String → ImagingFault
focus_not_supported detail =
    fault "Receiver" "ter:ActionNotSupported" "ter:ActionNotSupported" "Focus move unsupported"
      detail

-- Whether any kind of focus move is configured.
unfoldable pub focus_move_capable : {Float : Type 0} → FocusMoveConfig Float → Bool
focus_move_capable c = c.absolute.supported || c.relative.supported || c.continuous.supported

module _ (f : Floats) where
  open f use {Float, Double}

  -- The source as it is reported: with the values of the streamer, if its state can be read.
  unfoldable pub runtime_entry : ImagingEntry Float → StateFile Double → ImagingEntry Float
  unfolding load_imaging_state merge_prudynt_state
  runtime_entry e file = elim (load_imaging_state f file) [
    | none ↦ e
    | some state ↦ merge_prudynt_state e state
  ]

  unfoldable pub get_imaging_settings : Document → StateFile Double → Handler Float Page
  unfolding ensure_imaging_available require_imaging_entry runtime_entry build_imaging_settings_xml
      report_of get_element
  get_imaging_settings doc file = do
    ensure_imaging_available
    (i, e) ← require_imaging_entry (source_token doc)
    return (
      "imaging_service_files/GetImagingSettings.xml",
      ("%IMAGING_SETTINGS%", report_of (build_imaging_settings_xml f (runtime_entry e file))) ∷ [],
    )

  unfoldable pub get_options : Document → StateFile Double → Handler Float Page
  unfolding ensure_imaging_available require_imaging_entry runtime_entry build_imaging_options_xml
      report_of get_element
  get_options doc file = do
    ensure_imaging_available
    (i, e) ← require_imaging_entry (source_token doc)
    return (
      "imaging_service_files/GetOptions.xml",
      ("%IMAGING_OPTIONS%", report_of (build_imaging_options_xml f (runtime_entry e file))) ∷ [],
    )

  unfoldable pub get_move_options : Document → Handler Float Page
  unfolding ensure_imaging_available require_imaging_entry focus_move_capable
      build_focus_move_options_xml report_of get_element
  get_move_options doc = do
    ensure_imaging_available
    (i, e) ← require_imaging_entry (source_token doc)
    unless (not (focus_move_capable e.focus_move))
        (focus_not_supported "No focus move options are configured for this source")
    options ←
        need (filled (some (report_of (build_focus_move_options_xml f e.focus_move))))
          (focus_not_supported "Unable to build focus move options for this source")
    return ("imaging_service_files/GetMoveOptions.xml", ("%MOVE_OPTIONS%", options) ∷ [])

  unfoldable pub get_status : Document → Handler Float Page
  unfolding ensure_imaging_available require_imaging_entry build_focus_status_xml report_of
      get_element
  get_status doc = do
    ensure_imaging_available
    (i, e) ← require_imaging_entry (source_token doc)
    return (
      "imaging_service_files/GetStatus.xml",
      ("%IMAGING_STATUS%", report_of (build_focus_status_xml f e)) ∷ [],
    )
