-- ===== src/Ptz/Moves/Range.antt =====
-- Where an AbsoluteMove of src/ptz_service.c goes.
use thingino_onvif.Base.{Bool, true, false, Option, none, some, ◌≡◌, ◌⊎◌, inl, inr, Bool-cases}
use thingino_onvif.Ptz.Moves.Absolute.{pan_tilt_target, zoom_target}
use thingino_onvif.Ptz.Moves.{
  Doubles, MoveNode, MoveRequest, MoveCommand, jump, jump_at, stop, turn, turn_both, pan_tilt_in,
  zoom_in, clamp_double, onvif_to_machine_units,
}
use thingino_onvif.Ptz.Serves.{Serves}
use thingino_onvif.Ptz.{served, Page}

module _ (d : Doubles) where
  open d use {Double, lt, le, zero, le_of_not_lt, le_numbers}

  -- Between the limits, or no number (NaN), which is not even equal to itself.
  abbrev pub IsWithin : Double → Double → Double → Type 0
  IsWithin low high v = (le v v ≡ false) ⊎ ((le low v ≡ true) × (le v high ≡ true))

  clamp_double-IsWithin :
      (v low high : Double) → le low high ≡ true → IsWithin low high (clamp_double d v low high)
  unfolding clamp_double
  clamp_double-IsWithin v low high h =
      let (is_low, is_high) = le_numbers low high h in
      elim (Bool-cases (lt v low)) [
        | inl below ↦ rw below (inr (is_low, h))
        | inr not_below ↦ elim (Bool-cases (lt high v)) [
          | inl above ↦ rw (not_below, above) (inr (h, is_high))
          | inr not_above ↦
              rw (not_below, not_above)
                (elim (Bool-cases (le v v)) [
                  | inl number ↦ inr (
                    le_of_not_lt v low number is_low not_below,
                    le_of_not_lt high v is_high number not_above,
                  )
                  | inr nan ↦ inl nan
                ])
        ]
      ]

  -- An absolute conversion ends in the range of the machine.
  pub onvif_to_machine_units-IsWithin :
      (v low high onvif_min onvif_max : Double) (invert : Bool)
      → le low high ≡ true
      → IsWithin low high (onvif_to_machine_units d v low high onvif_min onvif_max invert false)
  unfolding onvif_to_machine_units
  onvif_to_machine_units-IsWithin v low high onvif_min onvif_max invert h =
      elim (Bool-cases (d.le onvif_max onvif_min)) [
        | inl empty ↦ rw empty (inr ((le_numbers low high h).0, h))
        | inr proper ↦ rw proper (clamp_double-IsWithin _ low high h)
      ]

  -- The ranges of the machine are in order.
  abbrev pub HasRanges : MoveNode Double → Type 0
  HasRanges node =
      (le node.min_step_x node.max_step_x ≡ true)
      × (le node.min_step_y node.max_step_y ≡ true)
      × (le node.min_step_z node.max_step_z ≡ true)

  abbrev pub PanTiltWithin : MoveNode Double → Option (Double × Double) → Type 0
  PanTiltWithin node none = Unit {0}
  PanTiltWithin node (some (x, y)) =
      IsWithin node.min_step_x node.max_step_x x × IsWithin node.min_step_y node.max_step_y y

  abbrev pub ZoomWithin : MoveNode Double → Option Double → Type 0
  ZoomWithin node none = Unit {0}
  ZoomWithin node (some z) = IsWithin node.min_step_z node.max_step_z z

  -- The command is given the targets, and zero for an axis without one.
  abbrev pub x_of : Option (Double × Double) → Double
  x_of none = zero
  x_of (some (x, y)) = x

  abbrev pub y_of : Option (Double × Double) → Double
  y_of none = zero
  y_of (some (x, y)) = y

  abbrev pub z_of : Option Double → Double
  z_of none = zero
  z_of (some z) = z

  abbrev pub Sends : MoveCommand Double → Double → Double → Double → Type 0
  Sends (jump format a b c) x y z = (a ≡ x) × (b ≡ y) × (c ≡ z)
  Sends (jump_at format a b c p q) x y z = (a ≡ x) × (b ≡ y) × (c ≡ z)
  Sends (turn format a) x y z = ⊥
  Sends (turn_both format a b) x y z = ⊥
  Sends (stop format what) x y z = ⊥

  -- What AbsoluteMove serves.
  abbrev Moved : MoveNode Double → MoveRequest → MoveCommand Double × Page → Type 0
  Moved node req (command, page) =
      (p : Option (Double × Double)) × (z : Option Double) × (pan_tilt_target d node
          (pan_tilt_in req.target)
        ≡ served p)
      × (zoom_target d node (zoom_in req.target) ≡ served z)
      × PanTiltWithin node p
      × ZoomWithin node z
      × Sends command (x_of p) (y_of p) (z_of z)
