-- ===== src/Imaging/Focus/Within.antt =====
-- What the focus moves of src/imaging_service.c leave behind.
use thingino_onvif.Base.{ℕ, true, not, Option, some, Bytes, codes, ◌≡◌, refl, String, ◌⊎◌, inl, inr}
use thingino_onvif.Xml.{Nodes}
use thingino_onvif.Imaging.{
  Floats, FocusMove, ImagingEntry, ImagingFault, Camera, Outcome, served, refused, undefined, ◌>>=◌,
  ◌>>◌, unless,
}
use thingino_onvif.Imaging.Ends.{Ends, Ends-bind, Ends-unless, Ends-need, not-not}
use thingino_onvif.Imaging.Focus.{
  read_child_float, run_move, checked_move, value_move, continuous_focus_move, speed_fault,
  value_within_range, perform, perform_absolute_focus_move, perform_relative_focus_move,
  perform_continuous_focus_move, set_focus_position, apply_focus_delta, Move, absolute, relative,
  continuous,
}
use thingino_onvif.Imaging.Focus.Finish.{Moved, Idled, run_move-Ends}
use thingino_onvif.Imaging.Focus.Checks.{Checked, checked_move-Ends}

module _ (f : Floats) where
  open f use {Float, nought, format}

  -- What a move with a value leaves: the source at `i` is idle, its command was built from the value of
  -- the request and a speed, both within the configured ranges, and the position is noted.
  abbrev pub MovedTo :
      ℕ
      → ImagingEntry Float
      → FocusMove Float
      → Nodes
      → Bytes
      → (Float → ImagingEntry Float → ImagingEntry Float)
      → Camera Float
      → Camera Float
      → Type 0
  MovedTo i e move node tag finish w v =
      (value : Float) × (speed : Float) × (move.supported ≡ true)
      × (read_child_float f tag node ≡ some value)
      × (value_within_range f move.range value ≡ true)
      × (value_within_range f move.speed speed ≡ true)
      × Moved f i e move.command value speed (finish value) w v

  abbrev pub MovedAs : ℕ → ImagingEntry Float → Move → Camera Float → Camera Float → Type 0
  MovedAs i e (absolute node) w v =
      MovedTo i e e.focus_move.absolute node (codes "Position") (set_focus_position f) w v
  MovedAs i e (relative node) w v =
      MovedTo i e e.focus_move.relative node (codes "Distance") (apply_focus_delta f) w v
  MovedAs i e (continuous node) w v =
      let move = e.focus_move.continuous in
      (speed : Float) × (move.supported ≡ true)
      × (read_child_float f (codes "Speed") node ≡ some speed)
      × (value_within_range f move.speed speed ≡ true)
      × Moved f i e move.command speed nought (λ e. e) w v

  -- A request that is refused changed nothing, or left the source idle without a command.
  abbrev pub Untouched : ℕ → ImagingEntry Float → Camera Float → Camera Float → Type 0
  Untouched i e w v = (v ≡ w) ⊎ Idled f i e w v

  -- The end of a move, for a larger condition.
  run_move-Within :
      (i : ℕ) (e : ImagingEntry Float) (template : Option Bytes) (a b : Float)
      (finish : ImagingEntry Float → ImagingEntry Float) (detail : String) (w v : Camera Float)
      (P : Camera Float → Type 0)
      → v ≡ w
      → ((u : Camera Float) → Moved f i e template a b finish w u → P u)
      → Ends (λ _ u. P u) (Untouched i e w) ⊥ (run_move f i e template a b finish detail v)
  run_move-Within i e template a b finish detail w v P same k = rw same (
      go (run_move f i e template a b finish detail w)
        (run_move-Ends f i e template a b finish detail w))
    where
      go :
          (o : Outcome Float (Unit {0}))
          → Ends (λ _ u. Moved f i e template a b finish w u) (λ u. Idled f i e w u) ⊥ o
          → Ends (λ _ u. P u) (Untouched i e w) ⊥ o
      go (served x u) h = k u h
      go (refused x u) h = inr h
      go undefined h = h

  module _ (i : ℕ) (e : ImagingEntry Float) (w : Camera Float) where
    value_move-Ends :
        (move : FocusMove Float) (node : Nodes) (tag : Bytes)
        (unsupported missing range_fault no_speed : ImagingFault) (detail : String)
        (finish : Float → ImagingEntry Float → ImagingEntry Float)
        → Ends
            (λ _ v. MovedTo i e move node tag finish w v)
            (Untouched i e w)
            ⊥
            (value_move f i e move node tag unsupported missing range_fault no_speed detail finish
              w)
    unfolding value_move
    value_move-Ends move node tag unsupported missing range_fault no_speed detail finish =
        let P = λ (_ : Unit {0}) (v : Camera Float). MovedTo i e move node tag finish w v in
        let checks = checked_move f e move node tag missing range_fault no_speed in
        let finish_move =
          λ (x : Float × Float). run_move f i e move.command x.0 x.1 (finish x.0) detail in
        Ends-unless P (Untouched i e w) ⊥ (not move.supported) unsupported (checks >>= finish_move)
          w (inl refl)
          λ supported.
            Ends-bind P (Untouched i e w) ⊥ (Checked f move node tag w) checks finish_move w
              (checked_move-Ends f e move node tag missing range_fault no_speed w (Untouched i e w)
                (inl refl))
              λ (value, speed) v (same, is_value, in_range, in_speed).
                run_move-Within i e move.command value speed (finish value) detail w v
                  (λ u. MovedTo i e move node tag finish w u) same
                  λ u moved. (
                    value,
                    speed,
                    not-not move.supported supported,
                    is_value,
                    in_range,
                    in_speed,
                    moved,
                  )

    continuous_focus_move-Ends :
        (node : Nodes)
        → e.focus_move.continuous.supported ≡ true
        → Ends
            (λ _ v. MovedAs i e (continuous node) w v)
            (Untouched i e w)
            ⊥
            (continuous_focus_move f i e node w)
    unfolding continuous_focus_move
    continuous_focus_move-Ends node supported =
        let P = λ (_ : Unit {0}) (v : Camera Float). MovedAs i e (continuous node) w v in
        let move = e.focus_move.continuous in
        let end = λ (speed : Float).
          run_move f i e move.command speed nought (λ e. e)
            "Failed to build continuous focus command" in
        let checked = λ (speed : Float).
          unless (not (value_within_range f move.speed speed)) speed_fault >> end speed in
        Ends-need P (Untouched i e w) ⊥ (read_child_float f (codes "Speed") node) _ checked w
          (inl refl)
          λ speed is_speed.
            Ends-unless P (Untouched i e w) ⊥ (not (value_within_range f move.speed speed))
              speed_fault (end speed) w (inl refl)
              λ in_speed.
                run_move-Within i e move.command speed nought (λ e. e) _ w w
                  (λ u. MovedAs i e (continuous node) w u) refl
                  λ u moved. (
                    speed,
                    supported,
                    is_speed,
                    not-not (value_within_range f move.speed speed) in_speed,
                    moved,
                  )

    pub perform-Ends :
        (move : Move)
        → Ends (λ _ v. MovedAs i e move w v) (Untouched i e w) ⊥ (perform f i e move w)
    unfolding perform perform_absolute_focus_move perform_relative_focus_move
        perform_continuous_focus_move
    perform-Ends (absolute node) =
        value_move-Ends e.focus_move.absolute node (codes "Position") _ _ _ _ _
          (set_focus_position f)
    perform-Ends (relative node) =
        value_move-Ends e.focus_move.relative node (codes "Distance") _ _ _ _ _
          (apply_focus_delta f)
    perform-Ends (continuous node) =
        Ends-unless (λ _ v. MovedAs i e (continuous node) w v) (Untouched i e w) ⊥
          (not e.focus_move.continuous.supported) _ (continuous_focus_move f i e node) w (inl refl)
          λ supported.
            continuous_focus_move-Ends node (not-not e.focus_move.continuous.supported supported)
