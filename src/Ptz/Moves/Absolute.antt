-- ===== src/Ptz/Moves/Absolute.antt =====
-- AbsoluteMove of src/ptz_service.c.
use thingino_onvif.Base.{false, [], Option, none, some, if◌then◌else◌, Bytes}
use thingino_onvif.Ptz.Moves.{
  Doubles, MoveNode, Attributes, MoveRequest, MoveCommand, pan_tilt_abs_generic,
  pan_tilt_abs_spherical, zoom_abs_generic, accepts_space, is_given_space, space_fault, check_move,
  both, pan_tilt_in, zoom_in, minus_one, onvif_to_machine_units, apply_reverse, speeds,
  jump_command, zoom_at,
}
use thingino_onvif.Ptz.{
  PtzFault, fault, action_failed, Handled, served, refused, ◌>>=◌, ◌>>◌, need, Page,
}

abbrev pub invalid_position : PtzFault
invalid_position =
    fault "Sender" "ter:InvalidArgVal" "ter:InvalidPosition" "Invalid position"
      "The requested position is out of bounds"

module _ (d : Doubles) where
  open d use {Double, zero, one, atof}

  -- AbsoluteMove. The generic space of pan and tilt goes from -1 to 1.
  unfoldable pub generic_target :
      MoveNode Double → Option (Bytes × Bytes) → Option (Double × Double)
  unfolding onvif_to_machine_units apply_reverse
  generic_target node none = none
  generic_target node (some (x, y)) = some (
    onvif_to_machine_units d (apply_reverse d node (atof x)) node.min_step_x node.max_step_x
        (minus_one d) one node.pan_inverted false,
    onvif_to_machine_units d (apply_reverse d node (atof y)) node.min_step_y node.max_step_y
        (minus_one d) one node.tilt_inverted false,
  )

  unfoldable pub spherical_target :
      MoveNode Double → Option (Bytes × Bytes) → Option (Double × Double)
  unfolding onvif_to_machine_units apply_reverse
  spherical_target node none = none
  spherical_target node (some (x, y)) = some (
    onvif_to_machine_units d (apply_reverse d node (atof x)) node.min_step_x node.max_step_x
        node.pan_min node.pan_max node.pan_inverted false,
    onvif_to_machine_units d (apply_reverse d node (atof y)) node.min_step_y node.max_step_y
        node.tilt_min node.tilt_max node.tilt_inverted false,
  )

  unfoldable pub pan_tilt_target :
      MoveNode Double → Option Attributes → Handled (Option (Double × Double))
  unfolding accepts_space generic_target spherical_target
  pan_tilt_target node none = served none
  pan_tilt_target node (some a) =
      if accepts_space pan_tilt_abs_generic a.space
      then served (generic_target node (both a.x a.y))
      else if is_given_space pan_tilt_abs_spherical a.space
      then served (spherical_target node (both a.x a.y))
      else refused 4 (space_fault "Pan/Tilt absolute space is not supported")

  unfoldable pub zoom_target : MoveNode Double → Option Attributes → Handled (Option Double)
  unfolding accepts_space onvif_to_machine_units
  zoom_target node none = served none
  zoom_target node (some a) =
      if accepts_space zoom_abs_generic a.space
      then served (zoom_at d node false a.x)
      else refused 4 (space_fault "Zoom absolute space is not supported")

  unfoldable pub absolute_move : MoveNode Double → MoveRequest → Handled (MoveCommand Double × Page)
  unfolding check_move pan_tilt_target zoom_target speeds jump_command
  absolute_move node req = do
    check_move node.enable req.has_profile_token
    format ← need node.jump_to_abs 3 (action_failed 3)
    pan_tilt ← pan_tilt_target node (pan_tilt_in req.target)
    zoom ← zoom_target node (zoom_in req.target)
    command ←
        need (jump_command d format node.jump_to_abs_speed (speeds d req.speed) pan_tilt zoom) 4
          invalid_position
    served (command, ("ptz_service_files/AbsoluteMove.xml", []))
