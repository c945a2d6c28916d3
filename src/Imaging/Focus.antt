-- ===== src/Imaging/Focus.antt =====
-- Move and Stop of src/imaging_service.c, which move the focus of a source.
pub mod Finish
pub mod Checks
pub mod Within
pub mod Requests
use thingino_onvif.Base.{
  ℕ, Bool, true, false, ◌&&◌, not, List, [], ◌∷◌, Option, none, some, if◌then◌else◌, Bytes, codes,
  String,
}
use thingino_onvif.Xml.{
  Nodes, Document, get_element, get_element_in_element, get_element_in_element_ptr,
}
use thingino_onvif.Xml.Pointer.{Mxml, get_element_ptr}
use thingino_onvif.Imaging.{
  Floats, FloatValue, FocusState, unknown, idle, moving, FocusMove, FocusContinuous, ImagingEntry,
  ImagingFault, fault, Camera, Handler, Outcome, served, refused, undefined, ◌>>=◌, ◌>>◌, return,
  refuse, need, unless, Page, ensure_imaging_available, require_imaging_entry, source_token, filled,
  store, execute_backend_command, fits_command, run_built,
}
use thingino_onvif.Imaging.Reports.{focus_move_capable, focus_not_supported}

abbrev pub focus_invalid : String → String → ImagingFault
focus_invalid reason detail = fault "Sender" "ter:InvalidArgVal" "ter:ConfigModify" reason detail

abbrev pub speed_fault : ImagingFault
speed_fault =
    focus_invalid "Speed out of range" "Requested focus speed is outside the configured range"

abbrev pub not_capable : ImagingFault
not_capable = focus_not_supported "This video source does not expose any focus move commands"

abbrev pub missing_focus : ImagingFault
missing_focus =
    focus_invalid "Missing Focus element" "Move requests must include the Focus container"

abbrev pub invalid_move : ImagingFault
invalid_move =
    focus_invalid "Invalid focus move"
      "Exactly one of Absolute, Relative or Continuous must be provided"

abbrev or_else : {A : Type 0} → Option A → A → A
or_else none d = d
or_else (some a) d = a

-- The kinds of move: the element with its children.
pub data Move : Type 0 where
  absolute relative continuous : Nodes → Move

-- A request has exactly one of them.
abbrev pub only_one : Option Nodes → Option Nodes → Option Nodes → Option Move
only_one (some n) none none = some (absolute n)
only_one none (some n) none = some (relative n)
only_one none none (some n) = some (continuous n)
only_one none none none = none
only_one (some n) (some m) o = none
only_one (some n) none (some m) = none
only_one none (some n) (some m) = none

module _ (f : Floats) where
  open f use {Float, lt, nought, one, add, strtof, format}

  abbrev number_in : Option Bytes → Option Float
  number_in none = none
  number_in (some text) = strtof text

  unfoldable pub read_child_float : Bytes → Nodes → Option Float
  unfolding get_element_in_element
  read_child_float tag parent = number_in (get_element_in_element tag parent)

  abbrev above : Option Float → Float → Bool
  above none value = true
  above (some min) value = not (lt value min)

  abbrev below : Option Float → Float → Bool
  below none value = true
  below (some max) value = not (lt max value)

  unfoldable pub value_within_range : FloatValue Float → Float → Bool
  value_within_range range value = above range.min value && below range.max value

  abbrev pub requested_within : FloatValue Float → Option Float → Bool
  requested_within range none = true
  requested_within range (some speed) = value_within_range range speed

  unfoldable pub resolve_focus_speed : ImagingEntry Float → FloatValue Float → Option Float → Float
  resolve_focus_speed e move_speed requested =
      or_else requested (or_else move_speed.value (or_else e.focus.default_speed.value one))

  unfoldable pub formatted : Option Bytes → Float → Float → Option Bytes
  unfolding fits_command
  formatted none arg1 arg2 = none
  formatted (some template) arg1 arg2 = fits_command (format template arg1 arg2)

  unfoldable pub execute_formatted_command : Option Bytes → Float → Float → Handler Float Bool
  unfolding run_built formatted
  execute_formatted_command template arg1 arg2 = run_built (formatted (filled template) arg1 arg2)

  abbrev pub with_state : FocusState → ImagingEntry Float → ImagingEntry Float
  with_state s e = record e { focus_state = s }

  unfoldable pub set_focus_position : Float → ImagingEntry Float → ImagingEntry Float
  set_focus_position position e = record e { focus_last_position = some position }

  abbrev moved_by : Option Float → Float → Float
  moved_by none delta = delta
  moved_by (some position) delta = add position delta

  unfoldable pub apply_focus_delta : Float → ImagingEntry Float → ImagingEntry Float
  apply_focus_delta delta e = record e {
    focus_last_position = some (moved_by e.focus_last_position delta);
  }

  -- The end of the three moves: the command is run, and the source is idle behind it.
  unfoldable pub run_move :
      ℕ
      → ImagingEntry Float
      → Option Bytes
      → (arg1 arg2 : Float) → (ImagingEntry Float → ImagingEntry Float)
      → String
      → Handler Float (Unit {0})
  unfolding execute_formatted_command
  run_move i e command arg1 arg2 finish detail = do
    store i (with_state moving e)
    built ← execute_formatted_command command arg1 arg2
    if built
        then store i (finish (with_state idle e))
        else (store i (with_state idle e) >> refuse (focus_invalid "Focus command failed" detail))

  -- The speed that the absolute and the relative move share: the one of the request, of the move, of
  -- the source, or 1.
  unfoldable pub checked_speed :
      ImagingEntry Float → FocusMove Float → Nodes → ImagingFault → Handler Float Float
  unfolding read_child_float value_within_range resolve_focus_speed
  checked_speed e move node no_speed = do
    let requested = read_child_float (codes "Speed") node
    unless (not (requested_within move.speed requested)) speed_fault
    let speed = resolve_focus_speed e move.speed requested
    unless (not (value_within_range move.speed speed)) no_speed
    return speed

  unfoldable pub checked_move :
      ImagingEntry Float
      → FocusMove Float
      → Nodes
      → Bytes
      → (missing range_fault no_speed : ImagingFault) → Handler Float (Float × Float)
  unfolding read_child_float value_within_range checked_speed
  checked_move e move node tag missing range_fault no_speed = do
    value ← need (read_child_float tag node) missing
    unless (not (value_within_range move.range value)) range_fault
    speed ← checked_speed e move node no_speed
    return (value, speed)

  -- What the two moves share; `finish` notes the position.
  unfoldable pub value_move :
      ℕ
      → ImagingEntry Float
      → FocusMove Float
      → Nodes
      → Bytes
      → (unsupported missing range_fault no_speed : ImagingFault) → String
      → (Float → ImagingEntry Float → ImagingEntry Float)
      → Handler Float (Unit {0})
  unfolding checked_move run_move
  value_move i e move node tag unsupported missing range_fault no_speed detail finish = do
    unless (not move.supported) unsupported
    (value, speed) ← checked_move e move node tag missing range_fault no_speed
    run_move i e move.command value speed (finish value) detail

  unfoldable pub perform_absolute_focus_move :
      ℕ → ImagingEntry Float → Nodes → Handler Float (Unit {0})
  unfolding value_move set_focus_position
  perform_absolute_focus_move i e node =
      value_move i e e.focus_move.absolute node (codes "Position")
        (focus_not_supported "Absolute focus moves are not configured for this source")
        (focus_invalid "Missing focus position" "Absolute focus moves require the Position element")
        (focus_invalid "Position out of range"
          "Requested focus position is outside the configured range")
        (focus_invalid "Speed unavailable"
          "No valid focus speed could be resolved for the absolute move")
        "Failed to build absolute focus command" set_focus_position

  unfoldable pub perform_relative_focus_move :
      ℕ → ImagingEntry Float → Nodes → Handler Float (Unit {0})
  unfolding value_move apply_focus_delta
  perform_relative_focus_move i e node =
      value_move i e e.focus_move.relative node (codes "Distance")
        (focus_not_supported "Relative focus moves are not configured for this source")
        (focus_invalid "Missing focus distance" "Relative focus moves require the Distance element")
        (focus_invalid "Distance out of range"
          "Requested focus distance is outside the configured range")
        (focus_invalid "Speed unavailable"
          "No valid focus speed could be resolved for the relative move")
        "Failed to build relative focus command" apply_focus_delta

  -- The continuous move of a source that supports it.
  unfoldable pub continuous_focus_move : ℕ → ImagingEntry Float → Nodes → Handler Float (Unit {0})
  unfolding read_child_float value_within_range run_move
  continuous_focus_move i e node = do
    speed ←
        need (read_child_float (codes "Speed") node)
          (focus_invalid "Missing focus speed" "Continuous focus moves require the Speed element")
    unless (not (value_within_range e.focus_move.continuous.speed speed)) speed_fault
    run_move i e e.focus_move.continuous.command speed nought (λ e. e)
        "Failed to build continuous focus command"

  unfoldable pub perform_continuous_focus_move :
      ℕ → ImagingEntry Float → Nodes → Handler Float (Unit {0})
  unfolding continuous_focus_move
  perform_continuous_focus_move i e node = do
    unless (not e.focus_move.continuous.supported)
        (focus_not_supported "Continuous focus moves are not configured for this source")
    continuous_focus_move i e node

  unfoldable pub perform : ℕ → ImagingEntry Float → Move → Handler Float (Unit {0})
  unfolding perform_absolute_focus_move perform_relative_focus_move perform_continuous_focus_move
  perform i e (absolute node) = perform_absolute_focus_move i e node
  perform i e (relative node) = perform_relative_focus_move i e node
  perform i e (continuous node) = perform_continuous_focus_move i e node

  unfoldable pub requested_move : Nodes → Option Move
  unfolding get_element_in_element_ptr
  requested_move focus =
      only_one (get_element_in_element_ptr (codes "Absolute") focus)
        (get_element_in_element_ptr (codes "Relative") focus)
        (get_element_in_element_ptr (codes "Continuous") focus)

  abbrev pub move_done : Page
  move_done = ("imaging_service_files/Move.xml", [])

  -- The move of a source, whose focus element is given.
  unfoldable pub move_source : ℕ → ImagingEntry Float → Option Nodes → Handler Float Page
  unfolding focus_move_capable requested_move perform
  move_source i e focus_element = do
    unless (not (focus_move_capable e.focus_move)) not_capable
    focus ← need focus_element missing_focus
    move ← need (requested_move focus) invalid_move
    perform i e move
    return move_done

  unfoldable pub imaging_move : Mxml → Document → Handler Float Page
  unfolding ensure_imaging_available require_imaging_entry move_source get_element_ptr get_element
  imaging_move m doc = do
    ensure_imaging_available
    (i, e) ← require_imaging_entry (source_token doc)
    move_source i e (get_element_ptr m doc none (codes "Focus") (some (codes "Body")))

  unfoldable pub imaging_stop : Document → Handler Float Page
  unfolding ensure_imaging_available require_imaging_entry execute_backend_command get_element
  imaging_stop doc = do
    ensure_imaging_available
    (i, e) ← require_imaging_entry (source_token doc)
    command ←
        need (filled e.focus_move.cmd_stop)
          (focus_not_supported "No focus stop command configured for this source")
    execute_backend_command (some command)
    store i (with_state idle e)
    return ("imaging_service_files/Stop.xml", [])
