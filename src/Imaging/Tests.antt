-- ===== src/Imaging/Tests.antt =====
-- Concrete sources and requests, with whole hundredths in place of floating point numbers.
mod Moves
mod Changes
use thingino_onvif.Base.Int.{
  ℤ, pos, negsuc, pos_part, neg_part, sub_ℕ, ltb_ℤ, leb_ℤ, ◌+ℤ◌, ◌-ℤ◌, ◌≤ℤ◌,
}
use thingino_onvif.Base.{
  ℕ, ◌+◌, ◌*◌, ◌/◌, ◌≤◌, ◌<◌, Bool, true, false, ◌&&◌, List, [], ◌∷◌, ◌++◌, Option, none, some, ◌≡◌,
  refl, ◌↔◌, arith, codes, Bytes, get_elem?, set, length,
}
use thingino_onvif.Text.Decimal.{print, scan_int, skip_space, is_space}
use thingino_onvif.Xml.{Nodes, end, element, text, Document}
use thingino_onvif.Xml.Pointer.{Mxml}
use thingino_onvif.Imaging.{
  Floats, FloatValue, ModeLevel, IrcutMode, on, off, auto, idle, unknown, PresetEntry, ImagingEntry,
  Camera, served, undefined,
}

abbrev whole_of : Option (ℤ × Bytes) → Option ℤ
whole_of none = none
whole_of (some (n, rest)) = some n

abbrev hundredths : Floats
hundredths = record {
  Float = ℤ;
  lt = ltb_ℤ;
  le = leb_ℤ;
  nought = pos 0;
  one = pos 100;
  ten = pos 1000;
  byte_max = pos 25500;
  neg_one = negsuc 99;
  add = ◌+ℤ◌;
  sub = ◌-ℤ◌;
  div = λ a b. sub_ℕ (pos_part a * 100 / pos_part b) (neg_part a * 100 / pos_part b);
  fabs = λ a. pos (pos_part a + neg_part a);
  tolerance = pos 2;
  strtof = λ s. whole_of (scan_int s);
  print6 = λ a. print (pos_part a);
  print4 = λ a. print (pos_part a);
  format = λ s a b. s ++ print (pos_part a);
  format_texts = λ s a b c. s ++ a;
  Double = ℤ;
  strtod = scan_int;
  le_double = leb_ℤ;
  is_unit = λ a. leb_ℤ (pos 0) a && leb_ℤ a (pos 100);
  percent = λ a. a;
  to_float = λ a. a;
}

abbrev no_value : FloatValue ℤ
no_value = record { present = false; value = none; min = none; max = none }

abbrev range : ℕ → FloatValue ℤ
range n = record { present = true; value = none; min = some (pos 0); max = some (pos n) }

abbrev no_level : ModeLevel ℤ
no_level = record { present = false; mode = none; modes = []; level = no_value }

abbrev day : PresetEntry
day = record { token = some (codes "Day"); name = none; kind = none; command = some (codes "day ") }

abbrev night : PresetEntry
night = record {
  token = some (codes "Night");
  name = some (codes "Dark");
  kind = none;
  command = none;
}

-- A source with an absolute focus move, two presets and a cut filter.
abbrev source : ImagingEntry ℤ
source = record {
  video_source_token = some (codes "V0");
  ircut_mode = on;
  supports_ircut_on = true;
  supports_ircut_off = true;
  supports_ircut_auto = false;
  cmd_ircut_on = none;
  cmd_ircut_off = some (codes "irc off");
  cmd_ircut_auto = none;
  backlight = no_level;
  brightness = range 255;
  color_saturation = no_value;
  contrast = no_value;
  sharpness = no_value;
  exposure = record {
    present = false;
    mode = none;
    modes = [];
    priority = none;
    priorities = [];
    min_exposure_time = no_value;
    max_exposure_time = no_value;
    exposure_time = no_value;
    min_gain = no_value;
    max_gain = no_value;
    gain = no_value;
    min_iris = no_value;
    max_iris = no_value;
    iris = no_value;
  };
  focus = record {
    present = false;
    mode = none;
    modes = [];
    default_speed = no_value;
    near_limit = no_value;
    far_limit = no_value;
  };
  wide_dynamic_range = no_level;
  white_balance = record {
    present = false;
    mode = none;
    modes = [];
    cr_gain = no_value;
    cb_gain = no_value;
  };
  ircut_auto_adjustment = record {
    present = false;
    boundary_type = none;
    boundary_types = [];
    boundary_offset = no_value;
    response_time = no_value;
  };
  image_stabilization = no_level;
  tone_compensation = no_level;
  defogging = no_level;
  noise_reduction = no_value;
  focus_move = record {
    absolute = record {
      supported = true;
      command = some (codes "focus ");
      range = range 90;
      speed = no_value;
    };
    relative = record { supported = false; command = none; range = no_value; speed = no_value };
    continuous = record { supported = false; command = none; speed = no_value };
    cmd_stop = some (codes "focus stop");
  };
  focus_state = unknown;
  focus_last_position = none;
  presets = day ∷ night ∷ [];
  cmd_apply_preset = some (codes "apply ");
  current_preset_token = none;
}

abbrev pub camera : Camera ℤ
camera = record { imaging = source ∷ []; commands = []; payloads = [] }

-- A leaf with a text.
abbrev leaf : Bytes → Bytes → Nodes → Nodes
leaf name s next = element name (text s end) next

abbrev document : Nodes → Document
document body = record {
  root = element (codes "Envelope") (element (codes "Body") body end) end;
  has_parent = false;
}
