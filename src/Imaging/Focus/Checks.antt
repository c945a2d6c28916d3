-- ===== src/Imaging/Focus/Checks.antt =====
-- The checks of a focus move in src/imaging_service.c.
use thingino_onvif.Base.{true, not, some, Bytes, codes, ◌≡◌, refl}
use thingino_onvif.Xml.{Nodes}
use thingino_onvif.Imaging.{
  Floats, FocusMove, ImagingEntry, ImagingFault, Camera, ◌>>=◌, ◌>>◌, return, unless,
}
use thingino_onvif.Imaging.Ends.{Ends, Ends-bind, Ends-unless, Ends-need, not-not}
use thingino_onvif.Imaging.Focus.{
  read_child_float, resolve_focus_speed, checked_move, checked_speed, requested_within, speed_fault,
  value_within_range,
}

module _ (f : Floats) where
  open f use {Float, nought, format}

  -- The value and the speed that pass the checks; nothing is changed by them.
  abbrev pub Checked :
      FocusMove Float → Nodes → Bytes → Camera Float → Float × Float → Camera Float → Type 0
  Checked move node tag w (value, speed) v =
      (v ≡ w)
      × (read_child_float f tag node ≡ some value)
      × (value_within_range f move.range value ≡ true)
      × (value_within_range f move.speed speed ≡ true)

  checked_speed-Ends :
      (e : ImagingEntry Float) (move : FocusMove Float) (node : Nodes) (no_speed : ImagingFault)
      (w : Camera Float) (Q : Camera Float → Type 0)
      → Q w
      → Ends
          (λ speed v. (v ≡ w) × (value_within_range f move.speed speed ≡ true))
          Q
          ⊥
          (checked_speed f e move node no_speed w)
  unfolding checked_speed
  checked_speed-Ends e move node no_speed w Q q =
      let requested = read_child_float f (codes "Speed") node in
      let speed = resolve_focus_speed f e move.speed requested in
      let P =
        λ (s : Float) (v : Camera Float). (v ≡ w) × (value_within_range f move.speed s ≡ true) in
      let within = not (value_within_range f move.speed speed) in
      Ends-unless P Q ⊥ (not (requested_within f move.speed requested)) speed_fault
        (unless within no_speed >> return speed) w q
        λ _.
          Ends-unless P Q ⊥ within no_speed (return speed) w q
            λ in_speed. (refl, not-not (value_within_range f move.speed speed) in_speed)

  pub checked_move-Ends :
      (e : ImagingEntry Float) (move : FocusMove Float) (node : Nodes) (tag : Bytes)
      (missing range_fault no_speed : ImagingFault) (w : Camera Float) (Q : Camera Float → Type 0)
      → Q w
      → Ends
          (Checked move node tag w)
          Q
          ⊥
          (checked_move f e move node tag missing range_fault no_speed w)
  unfolding checked_move
  checked_move-Ends e move node tag missing range_fault no_speed w Q q =
      let P = Checked move node tag w in
      let read = λ (value : Float). checked_speed f e move node no_speed >>= λ (speed : Float).
      return {Float = Float} (value, speed) in
      let checked = λ (value : Float).
        unless (not (value_within_range f move.range value)) range_fault >> read value in
      Ends-need P Q ⊥ (read_child_float f tag node) missing checked w q λ value is_value.
        Ends-unless P Q ⊥ (not (value_within_range f move.range value)) range_fault (read value) w q
          λ in_range.
            Ends-bind P Q ⊥ (λ speed v. (v ≡ w) × (value_within_range f move.speed speed ≡ true))
              (checked_speed f e move node no_speed) (λ speed. return (value, speed)) w
              (checked_speed-Ends e move node no_speed w Q q)
              λ speed v (same, in_speed).
                (same, is_value, not-not (value_within_range f move.range value) in_range, in_speed)
