-- ===== src/Imaging/Config.antt =====
-- The configured sources of src/imaging_service.c, with floating point numbers as a parameter.
use thingino_onvif.Base.{Bool, List, Option, Bytes}

-- The operations of C on `float` and `double` that the code uses, the reading of numbers, and the
-- printing of formats: `format` is what snprintf prints of a configured format with two numbers, and
-- `format_texts` of one with three texts.
pub record Floats : Type 1 where
  pub Float : Type 0
  pub lt : Float → Float → Bool
  pub le : Float → Float → Bool
  pub nought : Float
  pub one : Float
  pub ten : Float
  pub byte_max : Float
  pub neg_one : Float
  pub add : Float → Float → Float
  pub sub : Float → Float → Float
  pub div : Float → Float → Float
  pub fabs : Float → Float
  pub tolerance : Float
  pub strtof : Bytes → Option Float
  pub print6 : Float → Bytes
  pub print4 : Float → Bytes
  pub format : Bytes → Float → Float → Bytes
  pub format_texts : Bytes → Bytes → Bytes → Bytes → Bytes
  pub Double : Type 0
  pub strtod : Bytes → Option (Double × Bytes)
  pub le_double : Double → Double → Bool
  pub is_unit : Double → Bool
  pub percent : Double → Double
  pub to_float : Double → Float

-- `imaging_float_value_t`; a number that is not there has no value.
pub record FloatValue (Float : Type 0) : Type 0 where
  pub present : Bool
  pub value : Option Float
  pub min : Option Float
  pub max : Option Float

-- `imaging_string_list_t`, whose items may be null pointers.
abbrev pub StringList : Type 0
StringList = List (Option Bytes)

pub record ModeLevel (Float : Type 0) : Type 0 where
  pub present : Bool
  pub mode : Option Bytes
  pub modes : StringList
  pub level : FloatValue Float

pub record ExposureConfig (Float : Type 0) : Type 0 where
  pub present : Bool
  pub mode : Option Bytes
  pub modes : StringList
  pub priority : Option Bytes
  pub priorities : StringList
  pub min_exposure_time : FloatValue Float
  pub max_exposure_time : FloatValue Float
  pub exposure_time : FloatValue Float
  pub min_gain : FloatValue Float
  pub max_gain : FloatValue Float
  pub gain : FloatValue Float
  pub min_iris : FloatValue Float
  pub max_iris : FloatValue Float
  pub iris : FloatValue Float

pub record FocusConfig (Float : Type 0) : Type 0 where
  pub present : Bool
  pub mode : Option Bytes
  pub modes : StringList
  pub default_speed : FloatValue Float
  pub near_limit : FloatValue Float
  pub far_limit : FloatValue Float

pub data FocusState : Type 0 where
  unknown idle moving : FocusState

-- The absolute and the relative move; `range` is the position or the distance.
pub record FocusMove (Float : Type 0) : Type 0 where
  pub supported : Bool
  pub command : Option Bytes
  pub range : FloatValue Float
  pub speed : FloatValue Float

pub record FocusContinuous (Float : Type 0) : Type 0 where
  pub supported : Bool
  pub command : Option Bytes
  pub speed : FloatValue Float

pub record FocusMoveConfig (Float : Type 0) : Type 0 where
  pub absolute : FocusMove Float
  pub relative : FocusMove Float
  pub continuous : FocusContinuous Float
  pub cmd_stop : Option Bytes

pub record PresetEntry : Type 0 where
  pub token : Option Bytes
  pub name : Option Bytes
  pub kind : Option Bytes
  pub command : Option Bytes

pub record WhiteBalanceConfig (Float : Type 0) : Type 0 where
  pub present : Bool
  pub mode : Option Bytes
  pub modes : StringList
  pub cr_gain : FloatValue Float
  pub cb_gain : FloatValue Float

pub record IrcutAutoAdjustment (Float : Type 0) : Type 0 where
  pub present : Bool
  pub boundary_type : Option Bytes
  pub boundary_types : StringList
  pub boundary_offset : FloatValue Float
  pub response_time : FloatValue Float

pub data IrcutMode : Type 0 where
  unspecified on off auto : IrcutMode

-- `imaging_entry_t`, a video source. The last focus position is `none` before the first move.
pub record ImagingEntry (Float : Type 0) : Type 0 where
  pub video_source_token : Option Bytes
  pub ircut_mode : IrcutMode
  pub supports_ircut_on : Bool
  pub supports_ircut_off : Bool
  pub supports_ircut_auto : Bool
  pub cmd_ircut_on : Option Bytes
  pub cmd_ircut_off : Option Bytes
  pub cmd_ircut_auto : Option Bytes
  pub backlight : ModeLevel Float
  pub brightness : FloatValue Float
  pub color_saturation : FloatValue Float
  pub contrast : FloatValue Float
  pub sharpness : FloatValue Float
  pub exposure : ExposureConfig Float
  pub focus : FocusConfig Float
  pub wide_dynamic_range : ModeLevel Float
  pub white_balance : WhiteBalanceConfig Float
  pub ircut_auto_adjustment : IrcutAutoAdjustment Float
  pub image_stabilization : ModeLevel Float
  pub tone_compensation : ModeLevel Float
  pub defogging : ModeLevel Float
  pub noise_reduction : FloatValue Float
  pub focus_move : FocusMoveConfig Float
  pub focus_state : FocusState
  pub focus_last_position : Option Float
  pub presets : List PresetEntry
  pub cmd_apply_preset : Option Bytes
  pub current_preset_token : Option Bytes
