-- ===== src/Ptz/Moves/Continuous.antt =====
-- ContinuousMove of src/ptz_service.c. It answers with the commands that it has run, also where a later
-- one is not configured.
use thingino_onvif.Base.{
  ℕ, Bool, true, false, ◌&&◌, not, List, [], ◌∷◌, ◌++◌, Option, none, some, if◌then◌else◌, Bytes,
  codes,
}
use thingino_onvif.Ptz.Moves.{
  Doubles, MoveNode, Attributes, MoveRequest, MoveCommand, turn, turn_both, stop,
  pan_tilt_vel_generic, zoom_vel_generic, accepts_space, space_fault, check_move, pan_tilt_in,
  zoom_in, zoom_at, onvif_to_machine_units, apply_reverse,
}
use thingino_onvif.Ptz.{action_failed, Handled, served, refused, undefined, ◌>>=◌, ◌>>◌, Page}

abbrev pub moved_page : Page
moved_page = ("ptz_service_files/ContinuousMove.xml", [])

module _ (d : Doubles) where
  open d use {Double, lt, eq, zero, neg, atof}

  -- The velocities that the request names, in the units of the machine.
  abbrev pan_velocity : MoveNode Double → Option Bytes → Option Double
  pan_velocity node none = none
  pan_velocity node (some x) = some (
      onvif_to_machine_units d (apply_reverse d node (atof x)) node.min_step_x node.max_step_x
        node.pan_min node.pan_max node.pan_inverted true)

  abbrev tilt_velocity : MoveNode Double → Option Bytes → Option Double
  tilt_velocity node none = none
  tilt_velocity node (some y) = some (
      onvif_to_machine_units d (apply_reverse d node (atof y)) node.min_step_y node.max_step_y
        node.tilt_min node.tilt_max node.tilt_inverted true)

  unfoldable pub pan_tilt_velocity :
      MoveNode Double → Option Attributes → Handled (Option Double × Option Double)
  unfolding accepts_space onvif_to_machine_units apply_reverse
  pan_tilt_velocity node none = served (none, none)
  pan_tilt_velocity node (some a) =
      if accepts_space pan_tilt_vel_generic a.space
      then served (pan_velocity node a.x, tilt_velocity node a.y)
      else refused 3 (space_fault "Pan/Tilt velocity space is not supported")

  unfoldable pub zoom_velocity : MoveNode Double → Option Attributes → Handled (Option Double)
  unfolding accepts_space onvif_to_machine_units
  zoom_velocity node none = served none
  zoom_velocity node (some a) =
      if accepts_space zoom_vel_generic a.space
      then served (zoom_at d node true a.x)
      else refused 3 (space_fault "Zoom velocity space is not supported")

  -- Given, and not zero; and given, and zero.
  abbrev pub turns : Option Double → Bool
  turns none = false
  turns (some v) = not (eq v zero)

  abbrev pub is_still : Option Double → Bool
  is_still none = false
  is_still (some v) = eq v zero

  -- The limit of the machine in the direction of the velocity.
  abbrev pub towards : Option Double → Double → Double → Double
  towards none low high = zero
  towards (some v) low high = if eq v zero then zero else if lt zero v then high else low

  abbrev pub x_limit : MoveNode Double → Option Double → Double
  x_limit node dx = towards dx node.min_step_x node.max_step_x

  abbrev y_limit : MoveNode Double → Option Double → Double
  y_limit node dy = towards dy node.min_step_y node.max_step_y

  abbrev diagonal : Option Bytes → Double → Double → List (MoveCommand Double)
  diagonal none x y = []
  diagonal (some format) x y = turn_both format x y ∷ []

  abbrev turn_with : Option Bytes → ℕ → Double → Handled (List (MoveCommand Double))
  turn_with none code v = refused code (action_failed code)
  turn_with (some format) code v = served (turn format v ∷ [])

  unfoldable pub pan_tilt_commands :
      MoveNode Double → Option Double → Option Double → Handled (List (MoveCommand Double))
  pan_tilt_commands node dx dy =
      if turns dx
      then if turns dy
        then served (diagonal node.move_both (x_limit node dx) (y_limit node dy))
        else turn_with node.move_x 3 (x_limit node dx)
      else if turns dy
      then turn_with node.move_y 4 (y_limit node dy)
      else served []

  unfoldable pub zoom_commands :
      MoveNode Double → Option Double → Handled (List (MoveCommand Double))
  zoom_commands node none = served []
  zoom_commands node (some dz) =
      if lt zero dz
      then turn_with node.move_in 7 dz
      else if lt dz zero
      then turn_with node.move_out 8 (neg dz)
      else served []

  -- An axis whose velocity is zero is stopped, if there is a command for it.
  abbrev stop_if : Bool → Option Bytes → Bytes → List (MoveCommand Double)
  stop_if false format what = []
  stop_if true none what = []
  stop_if true (some format) what = stop format what ∷ []

  unfoldable pub stop_commands :
      MoveNode Double → Option Double → Option Double → Option Double → List (MoveCommand Double)
  stop_commands node dx dy dz =
      stop_if (is_still dx && is_still dy) node.move_stop (codes "pantilt")
      ++ stop_if (is_still dz) node.move_stop (codes "zoom")

  -- A step that fails leaves the commands that were run before it.
  abbrev and_then :
      List (MoveCommand Double)
      → Handled (List (MoveCommand Double))
      → (List (MoveCommand Double) → List (MoveCommand Double) × Handled Page)
      → List (MoveCommand Double) × Handled Page
  and_then run (served more) k = k (run ++ more)
  and_then run (refused code e) k = (run, refused code e)
  and_then run undefined k = (run, undefined)

  unfoldable pub run_continuous :
      MoveNode Double
      → Option Double
      → Option Double
      → Option Double
      → List (MoveCommand Double) × Handled Page
  unfolding pan_tilt_commands zoom_commands stop_commands
  run_continuous node dx dy dz = and_then [] (pan_tilt_commands node dx dy) λ run.
      and_then run (zoom_commands node dz)
        λ run'. (run' ++ stop_commands node dx dy dz, served moved_page)

  abbrev pub velocities :
      MoveNode Double → MoveRequest → Handled (Option Double × Option Double × Option Double)
  velocities node req = do
    check_move node.enable req.has_profile_token
    (dx, dy) ← pan_tilt_velocity node (pan_tilt_in req.target)
    dz ← zoom_velocity node (zoom_in req.target)
    served (dx, dy, dz)

  abbrev pub run_at :
      MoveNode Double
      → Handled (Option Double × Option Double × Option Double)
      → List (MoveCommand Double) × Handled Page
  run_at node (served (dx, dy, dz)) = run_continuous node dx dy dz
  run_at node (refused code e) = ([], refused code e)
  run_at node undefined = ([], undefined)

  unfoldable pub continuous_move :
      MoveNode Double → MoveRequest → List (MoveCommand Double) × Handled Page
  unfolding check_move pan_tilt_velocity zoom_velocity run_continuous
  continuous_move node req = run_at node (velocities node req)
