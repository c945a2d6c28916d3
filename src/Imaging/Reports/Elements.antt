-- ===== src/Imaging/Reports/Elements.antt =====
-- The pieces of the reports of src/imaging_service.c, in the order in which they are appended.
use thingino_onvif.Base.{
  Bool, ◌||◌, List, [], ◌∷◌, ◌++◌, Option, none, some, if◌then◌else◌, Bytes, codes,
}
use thingino_onvif.Imaging.{
  Floats, FloatValue, ExposureConfig, FocusConfig, FocusState, unknown, idle, moving, FocusMove,
  FocusContinuous, FocusMoveConfig, WhiteBalanceConfig, IrcutAutoAdjustment, IrcutMode, unspecified,
  on, off, auto, ImagingEntry, or_text,
}
use thingino_onvif.Imaging.Builder.{
  Pieces, opening, closing, element_of, append_string_element, append_string_list, any_range,
  is_nonempty, append_float_element, append_float_range, append_mode_level_setting,
  append_mode_level_options,
}

unfoldable pub ircut_mode_to_string : IrcutMode → Bytes
ircut_mode_to_string on = codes "On"
ircut_mode_to_string off = codes "Off"
ircut_mode_to_string auto = codes "Auto"
ircut_mode_to_string unspecified = codes "Auto"

-- An unknown state is shown as the idle one.
unfoldable pub focus_move_status_to_string : FocusState → Bytes
focus_move_status_to_string moving = codes "MOVING"
focus_move_status_to_string idle = codes "IDLE"
focus_move_status_to_string unknown = codes "UNKNOWN"

abbrev shown_state : FocusState → FocusState
shown_state unknown = idle
shown_state idle = idle
shown_state moving = moving

abbrev enclosed : Bytes → Pieces → Pieces
enclosed tag pieces = opening tag ∷ (pieces ++ closing tag ∷ [])

-- A part that is shown only under a condition.
abbrev when : Bool → Pieces → Pieces
when b pieces = if b then pieces else []

unfoldable pub append_ircut_modes : {Float : Type 0} → ImagingEntry Float → Pieces
append_ircut_modes e =
    let mode = λ (m : Bytes). element_of (codes "IrCutFilterModes") m in
    if e.supports_ircut_on || e.supports_ircut_off || e.supports_ircut_auto
    then when e.supports_ircut_on (mode (codes "On") ∷ [])
      ++ (when e.supports_ircut_off (mode (codes "Off") ∷ [])
          ++ when e.supports_ircut_auto (mode (codes "Auto") ∷ []))
    else (mode (codes "On") ++ mode (codes "Off")) ∷ []

module _ (f : Floats) where
  open f use {Float, nought, print6}

  -- Several values, or the ranges of several values, one after the other.
  unfoldable pub floats : List (Bytes × FloatValue Float) → Pieces
  unfolding append_float_element
  floats [] = []
  floats ((tag, v) ∷ vs) = append_float_element f tag v ++ floats vs

  unfoldable pub ranges : List (Bytes × FloatValue Float) → Pieces
  unfolding append_float_range
  ranges [] = []
  ranges ((tag, v) ∷ vs) = append_float_range f tag v ++ ranges vs

  unfoldable pub append_exposure_settings : ExposureConfig Float → Pieces
  unfolding append_string_element floats
  append_exposure_settings c = when c.present (
      enclosed (codes "Exposure") (
        append_string_element (codes "Mode") c.mode
        ++ (append_string_element (codes "Priority") c.priority
            ++ floats (
                (codes "MinExposureTime", c.min_exposure_time)
                ∷ (codes "MaxExposureTime", c.max_exposure_time)
                ∷ (codes "ExposureTime", c.exposure_time)
                ∷ (codes "MinGain", c.min_gain)
                ∷ (codes "MaxGain", c.max_gain)
                ∷ (codes "Gain", c.gain)
                ∷ (codes "MinIris", c.min_iris)
                ∷ (codes "MaxIris", c.max_iris)
                ∷ (codes "Iris", c.iris)
                ∷ []))))

  unfoldable pub append_exposure_options : ExposureConfig Float → Pieces
  unfolding append_string_list ranges
  append_exposure_options c =
      when
        (any_range (
            c.min_exposure_time ∷ c.max_exposure_time ∷ c.exposure_time ∷ c.min_gain ∷ c.max_gain
            ∷ c.gain ∷ c.min_iris ∷ c.max_iris ∷ c.iris ∷ [])
          || is_nonempty c.modes
          || is_nonempty c.priorities)
        (enclosed (codes "ExposureOptions20") (
          append_string_list (codes "Mode") c.modes
          ++ (append_string_list (codes "Priority") c.priorities
              ++ ranges (
                  (codes "MinExposureTime", c.min_exposure_time)
                  ∷ (codes "MaxExposureTime", c.max_exposure_time)
                  ∷ (codes "ExposureTime", c.exposure_time)
                  ∷ (codes "MinGain", c.min_gain)
                  ∷ (codes "MaxGain", c.max_gain)
                  ∷ (codes "Gain", c.gain)
                  ∷ (codes "MinIris", c.min_iris)
                  ∷ (codes "MaxIris", c.max_iris)
                  ∷ (codes "Iris", c.iris)
                  ∷ []))))

  unfoldable pub append_focus_settings : FocusConfig Float → Pieces
  unfolding append_string_element floats
  append_focus_settings c = when c.present (
      enclosed (codes "Focus") (
        append_string_element (codes "AutoFocusMode") c.mode
        ++ floats (
            (codes "DefaultSpeed", c.default_speed)
            ∷ (codes "NearLimit", c.near_limit)
            ∷ (codes "FarLimit", c.far_limit)
            ∷ [])))

  unfoldable pub append_focus_options : FocusConfig Float → Pieces
  unfolding append_string_list ranges
  append_focus_options c =
      when (any_range (c.default_speed ∷ c.near_limit ∷ c.far_limit ∷ []) || is_nonempty c.modes) (
        enclosed (codes "FocusOptions20") (
          append_string_list (codes "AutoFocusModes") c.modes
          ++ ranges (
              (codes "DefaultSpeed", c.default_speed)
              ∷ (codes "NearLimit", c.near_limit)
              ∷ (codes "FarLimit", c.far_limit)
              ∷ [])))

  unfoldable pub append_white_balance_settings : WhiteBalanceConfig Float → Pieces
  unfolding append_string_element floats
  append_white_balance_settings c = when c.present (
      enclosed (codes "WhiteBalance") (
        append_string_element (codes "Mode") c.mode
        ++ floats ((codes "CrGain", c.cr_gain) ∷ (codes "CbGain", c.cb_gain) ∷ [])))

  unfoldable pub append_white_balance_options : WhiteBalanceConfig Float → Pieces
  unfolding append_string_list ranges
  append_white_balance_options c =
      when (any_range (c.cr_gain ∷ c.cb_gain ∷ []) || is_nonempty c.modes) (
        enclosed (codes "WhiteBalanceOptions20") (
          append_string_list (codes "Mode") c.modes
          ++ ranges ((codes "CrGain", c.cr_gain) ∷ (codes "CbGain", c.cb_gain) ∷ [])))

  unfoldable pub append_ircut_auto_adjustment_settings : IrcutAutoAdjustment Float → Pieces
  unfolding append_string_element floats
  append_ircut_auto_adjustment_settings c = when c.present (
      enclosed (codes "IrCutFilterAutoAdjustment") (
        append_string_element (codes "BoundaryType") c.boundary_type
        ++ floats (
            (codes "BoundaryOffset", c.boundary_offset)
            ∷ (codes "ResponseTime", c.response_time)
            ∷ [])))

  unfoldable pub append_ircut_auto_adjustment_options : IrcutAutoAdjustment Float → Pieces
  unfolding append_string_list ranges
  append_ircut_auto_adjustment_options c =
      when (any_range (c.boundary_offset ∷ c.response_time ∷ []) || is_nonempty c.boundary_types) (
        enclosed (codes "IrCutFilterAutoAdjustmentOptions") (
          append_string_list (codes "BoundaryType") c.boundary_types
          ++ ranges (
              (codes "BoundaryOffset", c.boundary_offset)
              ∷ (codes "ResponseTime", c.response_time)
              ∷ [])))

  unfoldable pub focus_move_pieces : Bytes → Bytes → FocusMove Float → Pieces
  unfolding ranges
  focus_move_pieces tag range c =
      when c.supported (enclosed tag (ranges ((range, c.range) ∷ (codes "Speed", c.speed) ∷ [])))

  unfoldable pub append_focus_move_continuous_options : FocusContinuous Float → Pieces
  unfolding append_float_range
  append_focus_move_continuous_options c =
      when c.supported
        (enclosed (codes "Continuous") (append_float_range f (codes "Speed") c.speed))

  unfoldable pub build_focus_move_options_xml : FocusMoveConfig Float → Pieces
  unfolding focus_move_pieces append_focus_move_continuous_options
  build_focus_move_options_xml c =
      focus_move_pieces (codes "Absolute") (codes "Position") c.absolute
      ++ (focus_move_pieces (codes "Relative") (codes "Distance") c.relative
          ++ append_focus_move_continuous_options c.continuous)

  abbrev or_nought : Option Float → Float
  or_nought none = nought
  or_nought (some p) = p

  unfoldable pub build_focus_status_xml : ImagingEntry Float → Pieces
  unfolding focus_move_status_to_string
  build_focus_status_xml e = enclosed (codes "FocusStatus20") (
      element_of (codes "Position") (print6 (or_nought e.focus_last_position))
      ∷ element_of (codes "MoveStatus") (focus_move_status_to_string (shown_state e.focus_state))
      ∷ [])

  abbrev token_piece : ImagingEntry Float → Bytes
  token_piece e =
      element_of (codes "VideoSourceToken")
        (or_text e.video_source_token (codes "VideoSourceToken"))

  abbrev parts : List Pieces → Pieces
  parts [] = []
  parts (p ∷ ps) = p ++ parts ps

  unfoldable pub build_imaging_settings_xml : ImagingEntry Float → Pieces
  unfolding append_mode_level_setting append_float_element append_exposure_settings
      append_focus_settings append_white_balance_settings append_ircut_auto_adjustment_settings
      ircut_mode_to_string
  build_imaging_settings_xml e =
      token_piece e
      ∷ parts (
          append_mode_level_setting f (codes "BacklightCompensation") e.backlight
          ∷ append_float_element f (codes "Brightness") e.brightness
          ∷ append_float_element f (codes "ColorSaturation") e.color_saturation
          ∷ append_float_element f (codes "Contrast") e.contrast
          ∷ append_exposure_settings e.exposure
          ∷ append_focus_settings e.focus
          ∷ (element_of (codes "IrCutFilter") (ircut_mode_to_string e.ircut_mode) ∷ [])
          ∷ append_float_element f (codes "Sharpness") e.sharpness
          ∷ append_mode_level_setting f (codes "WideDynamicRange") e.wide_dynamic_range
          ∷ append_white_balance_settings e.white_balance
          ∷ append_ircut_auto_adjustment_settings e.ircut_auto_adjustment
          ∷ append_mode_level_setting f (codes "ImageStabilization") e.image_stabilization
          ∷ append_mode_level_setting f (codes "ToneCompensation") e.tone_compensation
          ∷ append_mode_level_setting f (codes "Defogging") e.defogging
          ∷ append_float_element f (codes "NoiseReduction") e.noise_reduction
          ∷ [])

  unfoldable pub build_imaging_options_xml : ImagingEntry Float → Pieces
  unfolding append_mode_level_options append_float_range append_exposure_options
      append_focus_options append_ircut_modes append_white_balance_options
      append_ircut_auto_adjustment_options
  build_imaging_options_xml e =
      token_piece e
      ∷ parts (
          append_mode_level_options f (codes "BacklightCompensationOptions") e.backlight
          ∷ append_float_range f (codes "Brightness") e.brightness
          ∷ append_float_range f (codes "ColorSaturation") e.color_saturation
          ∷ append_float_range f (codes "Contrast") e.contrast
          ∷ append_exposure_options e.exposure
          ∷ append_focus_options e.focus
          ∷ append_ircut_modes e
          ∷ append_float_range f (codes "Sharpness") e.sharpness
          ∷ append_mode_level_options f (codes "WideDynamicRangeOptions") e.wide_dynamic_range
          ∷ append_white_balance_options e.white_balance
          ∷ append_ircut_auto_adjustment_options e.ircut_auto_adjustment
          ∷ append_mode_level_options f (codes "ImageStabilizationOptions") e.image_stabilization
          ∷ append_mode_level_options f (codes "ToneCompensationOptions") e.tone_compensation
          ∷ append_mode_level_options f (codes "DefoggingOptions") e.defogging
          ∷ append_float_range f (codes "NoiseReduction") e.noise_reduction
          ∷ [])
