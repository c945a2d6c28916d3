-- ===== src/Ptz/Moves/Velocity.antt =====
-- Two corners of ContinuousMove of src/ptz_service.c.
use thingino_onvif.Base.{true, false, [], ◌∷◌, none, some, ◌≡◌, ap, ◌∙◌, Bytes}
use thingino_onvif.Ptz.Moves.Continuous.{
  x_limit, moved_page, run_continuous, run_at, velocities, continuous_move,
}
use thingino_onvif.Ptz.Moves.{Doubles, MoveNode, MoveRequest, turn}
use thingino_onvif.Ptz.{action_failed, served, refused}

module _ (d : Doubles) (node : MoveNode d.Double) (req : MoveRequest) where
  open d use {Double, lt, eq, zero}

  run_diagonal :
      (dx dy : Double)
      → eq dx zero ≡ false
      → eq dy zero ≡ false
      → node.move_both ≡ none
      → run_continuous d node (some dx) (some dy) none ≡ ([], served moved_page)
  unfolding run_continuous
  run_diagonal dx dy moving_x moving_y missing = rw (moving_x, moving_y, missing)

  run_zoom_fault :
      (dx dz : Double) (format : Bytes)
      → eq dx zero ≡ false
      → lt zero dz ≡ true
      → node.move_x ≡ some format
      → node.move_in ≡ none
      → run_continuous d node (some dx) none (some dz)
        ≡ (turn format (x_limit d node (some dx)) ∷ [], refused 7 (action_failed 7))
  unfolding run_continuous
  run_zoom_fault dx dz format moving_x inwards configured missing =
      rw (moving_x, configured, inwards, missing)

  -- A ContinuousMove with velocities of pan and tilt that are not zero, and without a zoom, runs no
  -- command and is answered as done, if there is no command for both axes, whatever the commands for
  -- one axis are.
  pub continuous_move_diagonal :
      (dx dy : Double)
      → velocities d node req ≡ served (some dx, some dy, none)
      → eq dx zero ≡ false
      → eq dy zero ≡ false
      → node.move_both ≡ none
      → continuous_move d node req ≡ ([], served moved_page)
  unfolding continuous_move
  continuous_move_diagonal dx dy named moving_x moving_y missing =
      ap (run_at d node) named ∙ run_diagonal dx dy moving_x moving_y missing

  -- A ContinuousMove whose zoom goes in, and has no command, is answered with a fault behind the command
  -- that starts its pan.
  pub continuous_move_zoom_fault :
      (dx dz : Double) (format : Bytes)
      → velocities d node req ≡ served (some dx, none, some dz)
      → eq dx zero ≡ false
      → lt zero dz ≡ true
      → node.move_x ≡ some format
      → node.move_in ≡ none
      → continuous_move d node req
        ≡ (turn format (x_limit d node (some dx)) ∷ [], refused 7 (action_failed 7))
  unfolding continuous_move
  continuous_move_zoom_fault dx dz format named moving_x inwards configured missing =
      ap (run_at d node) named ∙ run_zoom_fault dx dz format moving_x inwards configured missing
