-- ===== src/Ptz/Moves.antt =====
-- The moves of src/ptz_service.c: the conversion between the units of ONVIF and of the machine, and
-- the handlers AbsoluteMove, RelativeMove, ContinuousMove and Stop. Floating point numbers are a parameter; a handler
-- answers with the command that it runs and its page.
pub mod Absolute
pub mod Relative
pub mod Continuous
pub mod Velocity
pub mod Stop
pub mod Range
mod Tests
use thingino_onvif.Base.{
  ℕ, Bool, true, false, ◌&&◌, ◌||◌, not, List, [], ◌∷◌, Option, none, some, ◌==◌, if◌then◌else◌,
  Bytes, codes, equal, String, ◌≡◌, refl,
}
use thingino_onvif.Ptz.{
  PtzFault, fault, action_failed, Handled, served, refused, ◌>>=◌, ◌>>◌, need, unless, no_profile,
  no_ptz_profile, Page,
}
use thingino_onvif.Text.Query.{equal_ignoring_case}

-- The operations of C on `double`, and `atof`. No number is below itself, which holds also for a value
-- that is no number (NaN). That one is not even at most itself; of two numbers that are not the one below
-- the other, the other is at most the one.
pub record Doubles : Type 1 where
  pub Double : Type 0
  pub lt : Double → Double → Bool
  pub le : Double → Double → Bool
  pub eq : Double → Double → Bool
  pub zero : Double
  pub one : Double
  pub two : Double
  pub neg : Double → Double
  pub add : Double → Double → Double
  pub sub : Double → Double → Double
  pub mul : Double → Double → Double
  pub div : Double → Double → Double
  pub atof : Bytes → Double
  pub lt_irrefl : (a : Double) → lt a a ≡ false
  pub le_of_not_lt : (a b : Double) → le a a ≡ true → le b b ≡ true → lt a b ≡ false → le b a ≡ true
  pub le_numbers : (a b : Double) → le a b ≡ true → (le a a ≡ true) × (le b b ≡ true)

-- What the moves read of `ptz_node_t`.
pub record MoveNode (Double : Type 0) : Type 0 where
  pub enable : ℕ
  pub min_step_x : Double
  pub max_step_x : Double
  pub min_step_y : Double
  pub max_step_y : Double
  pub min_step_z : Double
  pub max_step_z : Double
  pub pan_min : Double
  pub pan_max : Double
  pub tilt_min : Double
  pub tilt_max : Double
  pub fov_pan : Double
  pub fov_tilt : Double
  pub pan_inverted : Bool
  pub tilt_inverted : Bool
  pub reverse_mode_on : Bool
  pub move_x : Option Bytes
  pub move_y : Option Bytes
  pub move_both : Option Bytes
  pub move_in : Option Bytes
  pub move_out : Option Bytes
  pub move_stop : Option Bytes
  pub jump_to_abs : Option Bytes
  pub jump_to_rel : Option Bytes
  pub jump_to_abs_speed : Option Bytes
  pub jump_to_rel_speed : Option Bytes

-- The attributes of an element `PanTilt` or `Zoom`.
pub record Attributes : Type 0 where
  pub space : Option Bytes
  pub x : Option Bytes
  pub y : Option Bytes

-- An element with such elements in it.
pub record Vector : Type 0 where
  pub pan_tilt : Option Attributes
  pub zoom : Option Attributes

-- `target` is the element `Position`, `Translation` or `Velocity`.
pub record MoveRequest : Type 0 where
  pub has_profile_token : Bool
  pub target : Option Vector
  pub speed : Option Vector
  pub pan_tilt_text : Option Bytes
  pub zoom_text : Option Bytes

-- The commands, with the numbers that their formats are given.
pub data MoveCommand (Double : Type 0) : Type 0 where
  jump : Bytes → (x y z : Double) → MoveCommand Double
  jump_at : Bytes → (x y z pan_tilt_speed zoom_speed : Double) → MoveCommand Double
  turn : Bytes → Double → MoveCommand Double
  turn_both : Bytes → (x y : Double) → MoveCommand Double
  stop : Bytes → Bytes → MoveCommand Double

abbrev pub pan_tilt_abs_spherical : Bytes
pan_tilt_abs_spherical =
    codes "http://www.onvif.org/ver10/tptz/PanTiltSpaces/SphericalPositionSpace"

abbrev pub pan_tilt_abs_generic : Bytes
pan_tilt_abs_generic = codes "http://www.onvif.org/ver10/tptz/PanTiltSpaces/PositionGenericSpace"

abbrev pub zoom_abs_generic : Bytes
zoom_abs_generic = codes "http://www.onvif.org/ver10/tptz/ZoomSpaces/PositionGenericSpace"

abbrev pub pan_tilt_rel_generic : Bytes
pan_tilt_rel_generic = codes "http://www.onvif.org/ver10/tptz/PanTiltSpaces/TranslationGenericSpace"

abbrev pub pan_tilt_rel_fov : Bytes
pan_tilt_rel_fov = codes "http://www.onvif.org/ver10/tptz/PanTiltSpaces/TranslationSpaceFov"

abbrev pub zoom_rel_generic : Bytes
zoom_rel_generic = codes "http://www.onvif.org/ver10/tptz/ZoomSpaces/TranslationGenericSpace"

abbrev pub pan_tilt_vel_generic : Bytes
pan_tilt_vel_generic = codes "http://www.onvif.org/ver10/tptz/PanTiltSpaces/VelocityGenericSpace"

abbrev pub zoom_vel_generic : Bytes
zoom_vel_generic = codes "http://www.onvif.org/ver10/tptz/ZoomSpaces/VelocityGenericSpace"

-- A space that is missing is the generic one.
unfoldable pub accepts_space : Bytes → Option Bytes → Bool
unfolding equal
accepts_space uri none = true
accepts_space uri (some space) = equal space uri

abbrev pub is_given_space : Bytes → Option Bytes → Bool
is_given_space uri none = false
is_given_space uri (some space) = equal space uri

abbrev pub space_fault : String → PtzFault
space_fault detail =
    fault "Sender" "ter:InvalidArgVal" "ter:SpaceNotSupported" "Space not supported" detail

-- The checks at the start of the handlers.
unfoldable pub check_move : ℕ → Bool → Handled (Unit {0})
check_move enable has_profile_token = do
  unless (not has_profile_token) 1 no_profile
  unless (enable == 0) 2 no_ptz_profile

abbrev pub both : Option Bytes → Option Bytes → Option (Bytes × Bytes)
both none y = none
both (some x) none = none
both (some x) (some y) = some (x, y)

abbrev pub pan_tilt_in : Option Vector → Option Attributes
pan_tilt_in none = none
pan_tilt_in (some v) = v.pan_tilt

abbrev pub zoom_in : Option Vector → Option Attributes
zoom_in none = none
zoom_in (some v) = v.zoom

module _ (d : Doubles) where
  open d use {Double, lt, le, zero, one, two, neg, add, sub, mul, div, atof}

  abbrev pub minus_one : Double
  minus_one = neg one

  unfoldable pub clamp_double : Double → Double → Double → Double
  clamp_double value min_v max_v =
      if lt value min_v then min_v else if lt max_v value then max_v else value

  unfoldable pub onvif_to_machine_units :
      Double
      → (steps_min steps_max onvif_min onvif_max : Double) → (invert relative : Bool) → Double
  unfolding clamp_double
  onvif_to_machine_units value steps_min steps_max onvif_min onvif_max invert relative =
      let span_onvif = sub onvif_max onvif_min in
      let span_steps = sub steps_max steps_min in
      let turned = if invert then neg value else value in
      let mirrored = if invert then sub onvif_max (sub value onvif_min) else value in
      if le onvif_max onvif_min
      then steps_min
      else if relative
      then clamp_double (div (mul turned span_steps) span_onvif) (neg span_steps) span_steps
      else clamp_double (add (div (mul (sub mirrored onvif_min) span_steps) span_onvif) steps_min)
          steps_min steps_max

  unfoldable pub fov_to_machine_units :
      Double → (steps_min steps_max onvif_min onvif_max fov_span : Double) → Bool → Double
  unfolding onvif_to_machine_units
  fov_to_machine_units value steps_min steps_max onvif_min onvif_max fov_span invert =
      onvif_to_machine_units (div (mul value fov_span) two) steps_min steps_max onvif_min onvif_max
        invert true

  unfoldable pub apply_reverse : MoveNode Double → Double → Double
  apply_reverse node value = if node.reverse_mode_on then neg value else value

  -- The speeds; a negative one was not given.
  abbrev magnitude : Bytes → Double
  magnitude s = let v = atof s in if lt v zero then neg v else v

  abbrev limit : Double → Double
  limit v = let w = (if lt v zero then zero else v) in if lt one w then one else w

  abbrev speed_x : Option Bytes → Double
  speed_x none = minus_one
  speed_x (some s) = magnitude s

  abbrev with_speed_y : Double → Option Bytes → Double
  with_speed_y v none = v
  with_speed_y v (some s) = let w = magnitude s in if lt v zero || lt v w then w else v

  abbrev pan_tilt_speed_of : Option Attributes → Double
  pan_tilt_speed_of none = minus_one
  pan_tilt_speed_of (some a) = limit (with_speed_y (speed_x a.x) a.y)

  abbrev zoom_speed_at : Option Bytes → Double
  zoom_speed_at none = minus_one
  zoom_speed_at (some s) = limit (magnitude s)

  abbrev zoom_speed_of : Option Attributes → Double
  zoom_speed_of none = minus_one
  zoom_speed_of (some a) = zoom_speed_at a.x

  unfoldable pub speeds : Option Vector → Double × Double
  speeds none = (minus_one, minus_one)
  speeds (some v) = (pan_tilt_speed_of v.pan_tilt, zoom_speed_of v.zoom)

  abbrev or_zero : Double → Double
  or_zero v = if le zero v then v else zero

  -- The command of a move, with the speeds if there is a format for them and one is given.
  unfoldable pub jump_command :
      Bytes
      → Option Bytes
      → Double × Double
      → Option (Double × Double)
      → Option Double
      → Option (MoveCommand Double)
  jump_command format format_at (pts, zs) none none = none
  jump_command format none (pts, zs) (some (x, y)) none = some (jump format x y zero)
  jump_command format none (pts, zs) (some (x, y)) (some z) = some (jump format x y z)
  jump_command format none (pts, zs) none (some z) = some (jump format zero zero z)
  jump_command format (some at) (pts, zs) (some (x, y)) none =
      if le zero pts || le zero zs
      then some (jump_at at x y zero (or_zero pts) (or_zero zs))
      else some (jump format x y zero)
  jump_command format (some at) (pts, zs) (some (x, y)) (some z) =
      if le zero pts || le zero zs
      then some (jump_at at x y z (or_zero pts) (or_zero zs))
      else some (jump format x y z)
  jump_command format (some at) (pts, zs) none (some z) =
      if le zero zs then some (jump_at at zero zero z zero zs) else some (jump format zero zero z)

  abbrev pub zoom_at : MoveNode Double → Bool → Option Bytes → Option Double
  zoom_at node relative none = none
  zoom_at node relative (some z) =
      some (onvif_to_machine_units (atof z) node.min_step_z node.max_step_z zero one false relative)
