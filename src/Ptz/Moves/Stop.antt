-- ===== src/Ptz/Moves/Stop.antt =====
-- Stop of src/ptz_service.c.
use thingino_onvif.Base.{Bool, true, false, not, [], Option, none, some, Bytes, codes}
use thingino_onvif.Ptz.Moves.{MoveNode, MoveRequest, MoveCommand, stop, check_move}
use thingino_onvif.Ptz.{action_failed, Handled, served, ◌>>=◌, ◌>>◌, need, Page}
use thingino_onvif.Text.Query.{equal_ignoring_case}

-- An axis is left alone where its element says `false`.
unfoldable pub is_wanted : Option Bytes → Bool
unfolding equal_ignoring_case
is_wanted none = true
is_wanted (some text) = not (equal_ignoring_case (codes "false") text)

abbrev pub stop_command {ℓ} : {A : Type ℓ} → Bytes → (Bytes → A) → Bool → Bool → Option A
stop_command format run true true = some (run (codes "all"))
stop_command format run true false = some (run (codes "pantilt"))
stop_command format run false true = some (run (codes "zoom"))
stop_command format run false false = none

unfoldable pub stop_move :
    {Double : Type 0} → MoveNode Double → MoveRequest → Handled (Option (MoveCommand Double) × Page)
unfolding check_move is_wanted
stop_move node req = do
  check_move node.enable req.has_profile_token
  format ← need node.move_stop 3 (action_failed 3)
  served (
    stop_command format (stop format) (is_wanted req.pan_tilt_text) (is_wanted req.zoom_text),
    ("ptz_service_files/Stop.xml", []),
  )
