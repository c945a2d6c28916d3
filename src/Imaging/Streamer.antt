-- ===== src/Imaging/Streamer.antt =====
-- The bridge to the streamer, src/prudynt_bridge.c: reading its state, and writing changes and waiting
-- for them. The JSON file is read by a library: what it holds is an argument.
pub mod Waiting
use thingino_onvif.Base.Int.{ℤ, pos, negsuc}
use thingino_onvif.Base.{
  ℕ, zero, suc, ◌+◌, ◌/◌, Bool, true, false, ◌&&◌, ◌||◌, not, List, [], ◌∷◌, ◌++◌, Option, none,
  some, ltb, leb, if◌then◌else◌, Bytes, codes, length, equal,
}
use thingino_onvif.Imaging.{Floats}
use thingino_onvif.Imaging.Builder.{is_there}

-- `prudynt_field_state_t` of a field that is present.
pub record FieldState (Float : Type 0) : Type 0 where
  pub value : Float
  pub min : Float
  pub max : Float

-- `prudynt_imaging_state_t`
pub record StreamerState (Float : Type 0) : Type 0 where
  pub brightness : Option (FieldState Float)
  pub saturation : Option (FieldState Float)
  pub contrast : Option (FieldState Float)
  pub sharpness : Option (FieldState Float)
  pub backlight : Option (FieldState Float)
  pub wide_dynamic_range : Option (FieldState Float)
  pub tone : Option (FieldState Float)
  pub defog : Option (FieldState Float)
  pub noise_reduction : Option (FieldState Float)

-- A member of the object `fields`: its three numbers, of which one that is missing or that is of another
-- kind is `none`. A member that is missing or no object has no numbers.
pub record FieldNode (Double : Type 0) : Type 0 where
  pub value : Option Double
  pub min : Option Double
  pub max : Option Double

-- The members by their names; `none` is a file that cannot be loaded.
abbrev pub StateFile : Type 0 → Type 0
StateFile Double = Option (Bytes → FieldNode Double)

unfoldable pub lookup_field :
    {Float : Type 0} → StreamerState Float → Bytes → Option (FieldState Float)
unfolding equal
lookup_field s key =
    if equal key (codes "brightness")
    then s.brightness
    else if equal key (codes "contrast")
    then s.contrast
    else if equal key (codes "saturation")
    then s.saturation
    else if equal key (codes "sharpness")
    then s.sharpness
    else if equal key (codes "backlight")
    then s.backlight
    else if equal key (codes "wide_dynamic_range")
    then s.wide_dynamic_range
    else if equal key (codes "tone")
    then s.tone
    else if equal key (codes "defog")
    then s.defog
    else if equal key (codes "noise_reduction")
    then s.noise_reduction
    else none

abbrev any_present : {Float : Type 0} → StreamerState Float → Bool
any_present s =
    is_there s.brightness
    || is_there s.contrast
    || is_there s.saturation
    || is_there s.sharpness
    || is_there s.backlight
    || is_there s.wide_dynamic_range
    || is_there s.tone
    || is_there s.defog
    || is_there s.noise_reduction

abbrev pub buffer_size : ℕ
buffer_size = 256

abbrev pub wait_interval_ms : ℕ
wait_interval_ms = 100

unfoldable pub wait_limit_of : ℤ → ℕ
wait_limit_of (pos zero) = 1200
wait_limit_of (pos (suc n)) = suc n
wait_limit_of (negsuc n) = 1200

abbrev pub or_false : Option Bool → Bool
or_false none = false
or_false (some b) = b

-- Without a line, or where the pipe does not take it, nothing is waited for.
abbrev pub sent : Option Bytes → Bool → Bool → Option Bytes × Bool
sent none takes shown = (none, false)
sent (some line) false shown = (none, false)
sent (some line) true shown = (some line, shown)

module _ (f : Floats) where
  open f use {
    Float, lt, le, nought, one, neg_one, sub, div, fabs, tolerance, print4, Double, le_double,
    to_float,
  }

  field_of : Double → Double → Double → Option (FieldState Float)
  field_of raw_value raw_min raw_max =
      if le_double raw_max raw_min
      then none
      else some
          (record { value = to_float raw_value; min = to_float raw_min; max = to_float raw_max })

  abbrev field_of_numbers :
      Option Double → Option Double → Option Double → Option (FieldState Float)
  field_of_numbers (some v) (some lo) (some hi) = field_of v lo hi
  field_of_numbers none lo hi = none
  field_of_numbers (some v) none hi = none
  field_of_numbers (some v) (some lo) none = none

  unfoldable pub parse_field : FieldNode Double → Option (FieldState Float)
  unfolding field_of
  parse_field node = field_of_numbers node.value node.min node.max

  abbrev read_state : (Bytes → FieldNode Double) → StreamerState Float
  read_state fields = record {
    brightness = parse_field (fields (codes "brightness"));
    saturation = parse_field (fields (codes "saturation"));
    contrast = parse_field (fields (codes "contrast"));
    sharpness = parse_field (fields (codes "sharpness"));
    backlight = parse_field (fields (codes "backlight"));
    wide_dynamic_range = parse_field (fields (codes "wide_dynamic_range"));
    tone = parse_field (fields (codes "tone"));
    defog = parse_field (fields (codes "defog"));
    noise_reduction = parse_field (fields (codes "noise_reduction"));
  }

  unfoldable pub load_imaging_state : StateFile Double → Option (StreamerState Float)
  unfolding parse_field
  load_imaging_state none = none
  load_imaging_state (some fields) =
      if any_present (read_state fields) then some (read_state fields) else none

  unfoldable pub clamp01 : Float → Float
  clamp01 value = if lt value nought then nought else if lt one value then one else value

  unfoldable pub field_normalized_value : Option (FieldState Float) → Float
  field_normalized_value none = neg_one
  field_normalized_value (some field) =
      if le (sub field.max field.min) nought
      then neg_one
      else div (sub field.value field.min) (sub field.max field.min)

  -- Whether a change shows in a state.
  unfoldable pub shows : StreamerState Float → Bytes × Float → Bool
  unfolding lookup_field field_normalized_value clamp01
  shows state (key, value) =
      let normalized = field_normalized_value (lookup_field state key) in
      not (lt normalized nought || lt tolerance (fabs (sub normalized (clamp01 value))))

  unfoldable pub all_show : StreamerState Float → List (Bytes × Float) → Bool
  unfolding shows
  all_show state [] = true
  all_show state (c ∷ cs) = shows state c && all_show state cs

  abbrev pub satisfied : List (Bytes × Float) → StateFile Double → Bool
  satisfied commands file = elim (load_imaging_state file) [
    | none ↦ false
    | some state ↦ all_show state commands
  ]

  abbrev pub assignment : Bytes × Float → Bytes
  assignment (key, value) = codes " " ++ (key ++ (codes "=" ++ print4 (clamp01 value)))

  -- The line for the pipe, if it fits the buffer.
  unfoldable pub payload_behind : Bytes → List (Bytes × Float) → Option Bytes
  unfolding clamp01
  payload_behind written [] =
      if leb buffer_size (length written + 1) then none else some (written ++ codes "\n")
  payload_behind written (c ∷ cs) =
      let more = payload_behind (written ++ assignment c) cs in
      if leb buffer_size (length (written ++ assignment c)) then none else more

  unfoldable pub payload : List (Bytes × Float) → Option Bytes
  unfolding payload_behind
  payload commands = payload_behind (codes "SET") commands

  -- The loop that waits: `files k` is the file after `k` intervals. On fuel; a loop that runs out of it
  -- has no result.
  unfoldable pub wait_for :
      ℕ → List (Bytes × Float) → (ℕ → StateFile Double) → (limit elapsed round : ℕ) → Option Bool
  unfolding all_show load_imaging_state
  wait_for zero commands files limit elapsed round = none
  wait_for (suc fuel) commands files limit elapsed round =
      let rest = wait_for fuel commands files limit (elapsed + wait_interval_ms) (suc round) in
      if ltb limit elapsed
      then some false
      else if satisfied commands (files round)
      then some true
      else rest

  abbrev pub fuel_for : ℕ → ℕ
  fuel_for limit = limit / wait_interval_ms + 2

  -- The changes, with the time to wait and whether the pipe takes a line: the line that is written, if
  -- any, and whether the changes show in time.
  unfoldable pub apply_imaging_changes :
      List (Bytes × Float) → ℤ → Bool → (ℕ → StateFile Double) → Option Bytes × Bool
  apply_imaging_changes [] timeout_ms takes files = (none, true)
  apply_imaging_changes (c ∷ cs) timeout_ms takes files =
      let limit = wait_limit_of timeout_ms in
      sent (payload (c ∷ cs)) takes (or_false (wait_for (fuel_for limit) (c ∷ cs) files limit 0 0))
