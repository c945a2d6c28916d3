-- ===== src/Ptz/Moves/Relative.antt =====
-- RelativeMove of src/ptz_service.c. A failed part leaves a code behind, which a later part may
-- replace; the code is looked at in the end.
use thingino_onvif.Base.{
  ℕ, Bool, true, ◌||◌, not, [], Option, none, some, ◌==◌, if◌then◌else◌, Bytes,
}
use thingino_onvif.Ptz.Moves.{
  Doubles, MoveNode, Attributes, MoveRequest, MoveCommand, pan_tilt_rel_generic, pan_tilt_rel_fov,
  zoom_rel_generic, accepts_space, is_given_space, space_fault, check_move, both, pan_tilt_in,
  zoom_in, minus_one, onvif_to_machine_units, fov_to_machine_units, apply_reverse, speeds,
  jump_command, zoom_at,
}
use thingino_onvif.Ptz.{
  PtzFault, fault, action_failed, Handled, served, refused, ◌>>=◌, ◌>>◌, need, unless, Page,
}

module _ (d : Doubles) where
  open d use {Double, lt, zero, one, atof}

  unfoldable pub generic_delta :
      MoveNode Double → Option (Bytes × Bytes) → ℕ × Option (Double × Double)
  unfolding onvif_to_machine_units apply_reverse
  generic_delta node none = (4, none)
  generic_delta node (some (x, y)) = (
    0,
    some (
      onvif_to_machine_units d (apply_reverse d node (atof x)) node.min_step_x node.max_step_x
          node.pan_min node.pan_max node.pan_inverted true,
      onvif_to_machine_units d (apply_reverse d node (atof y)) node.min_step_y node.max_step_y
          node.tilt_min node.tilt_max node.tilt_inverted true,
    ),
  )

  -- Between -1 and 1.
  abbrev is_outside : Double → Bool
  is_outside v = lt one v || lt v (minus_one d)

  -- In the space of the field of view the direction is reversed behind the conversion.
  unfoldable pub fov_delta : MoveNode Double → Option (Bytes × Bytes) → ℕ × Option (Double × Double)
  unfolding fov_to_machine_units apply_reverse
  fov_delta node none = (8, none)
  fov_delta node (some (x, y)) =
      if is_outside (atof y) then (10, none) else if is_outside (atof x) then (9, none) else (
        0,
        some (
          apply_reverse d node (
              fov_to_machine_units d (atof x) node.min_step_x node.max_step_x node.pan_min
                node.pan_max node.fov_pan node.pan_inverted),
          apply_reverse d node (
              fov_to_machine_units d (atof y) node.min_step_y node.max_step_y node.tilt_min
                node.tilt_max node.fov_tilt node.tilt_inverted),
        ),
      )

  unfoldable pub pan_tilt_delta :
      MoveNode Double → Option Attributes → Handled (ℕ × Option (Double × Double))
  unfolding accepts_space generic_delta fov_delta
  pan_tilt_delta node none = served (0, none)
  pan_tilt_delta node (some a) =
      if accepts_space pan_tilt_rel_generic a.space
      then served (generic_delta node (both a.x a.y))
      else if is_given_space pan_tilt_rel_fov a.space
      then served (fov_delta node (both a.x a.y))
      else refused 4 (space_fault "Pan/Tilt relative space is not supported")

  abbrev zoom_code : ℕ → Option Bytes → ℕ
  zoom_code code none = 7
  zoom_code code (some z) = code

  unfoldable pub zoom_delta : MoveNode Double → ℕ → Option Attributes → Handled (ℕ × Option Double)
  unfolding accepts_space onvif_to_machine_units
  zoom_delta node code none = served (code, none)
  zoom_delta node code (some a) =
      if accepts_space zoom_rel_generic a.space
      then served (zoom_code code a.x, zoom_at d node true a.x)
      else refused 4 (space_fault "Zoom relative space is not supported")

  abbrev invalid_translation : PtzFault
  invalid_translation =
      fault "Sender" "ter:InvalidArgVal" "ter:InvalidTranslation" "Invalid translation"
        "The requested translation is out of bounds"

  unfoldable pub relative_move : MoveNode Double → MoveRequest → Handled (MoveCommand Double × Page)
  unfolding check_move pan_tilt_delta zoom_delta speeds jump_command
  relative_move node req = do
    check_move node.enable req.has_profile_token
    format ← need node.jump_to_rel 3 (action_failed 3)
    (code, pan_tilt) ← pan_tilt_delta node (pan_tilt_in req.target)
    (code', zoom) ← zoom_delta node code (zoom_in req.target)
    command ←
        need (jump_command d format node.jump_to_rel_speed (speeds d req.speed) pan_tilt zoom) 4
          invalid_translation
    unless (not (code' == 0)) code' invalid_translation
    served (command, ("ptz_service_files/RelativeMove.xml", []))
