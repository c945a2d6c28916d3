-- ===== src/Imaging/Settings/Values.antt =====
-- The values that SetImagingSettings of src/imaging_service.c sends.
use native.Mathlib.Decide.{dec_lt}
use thingino_onvif.Base.{
  ◌<◌, Bool, true, false, List, [], ◌∷◌, Option, none, some, if◌then◌else◌, Bytes, ◌≡◌, refl, arith,
  subst, sym, length, Bool-cases, ◌⊎◌, inl, inr, All, All-append,
}
use thingino_onvif.Xml.{Nodes}
use thingino_onvif.Imaging.{Floats, Camera}
use thingino_onvif.Imaging.Streamer.{FieldState, StreamerState, clamp01}
use thingino_onvif.Imaging.Settings.{
  find_child_value, find_mode_level_value, requested_changes, max_commands, prudynt_map,
  prudynt_mode_level_map, change_of, normalize_with_state, parse_imaging_value, fallback_value,
  scaled, field_in,
}
use thingino_onvif.Imaging.Settings.Room.{
  changes, with_change, asked, requested_changes-asked, within_array_over, within_array_room,
}
use thingino_onvif.Imaging.Ends.{Ends}

-- `ordered` is what IEEE 754 says of two numbers that are not the one below the other: the other is at
-- most the one. What is no number (NaN) is not even at most itself.
module _ (f : Floats)
    (ordered : (a b : f.Float)
      → f.le a a ≡ true
      → f.le b b ≡ true
      → f.lt a b ≡ false
      → f.le b a ≡ true)
    (nought_number : f.le f.nought f.nought ≡ true) (one_number : f.le f.one f.one ≡ true)
    (nought-le-one : f.le f.nought f.one ≡ true) where
  open f use {Float, lt, le, nought, one, sub}

  -- Between 0 and 1, or no number.
  abbrev pub IsPart : Float → Type 0
  IsPart v = (le v v ≡ false) ⊎ ((le nought v ≡ true) × (le v one ≡ true))

  clamp01-IsPart : (v : Float) → IsPart (clamp01 f v)
  unfolding clamp01
  clamp01-IsPart v = elim (Bool-cases (lt v nought)) [
    | inl low ↦ rw low (inr (nought_number, nought-le-one))
    | inr not_low ↦ elim (Bool-cases (lt one v)) [
      | inl high ↦ rw (not_low, high) (inr (nought-le-one, one_number))
      | inr not_high ↦
          rw (not_low, not_high)
            (elim (Bool-cases (le v v)) [
              | inl number ↦ inr (
                ordered v nought number nought_number not_low,
                ordered one v one_number number not_high,
              )
              | inr nan ↦ inl nan
            ])
    ]
  ]

  if_IsPart : (b : Bool) (x y : Float) → IsPart x → IsPart y → IsPart (if b then x else y)
  if_IsPart true x y hx hy = hx
  if_IsPart false x y hx hy = hy

  fallback_value-IsPart : (key : Bytes) (v : Float) → IsPart (fallback_value f key v)
  unfolding fallback_value
  fallback_value-IsPart key v = if_IsPart _ _ _ (clamp01-IsPart _) (clamp01-IsPart _)

  normalize-IsPart :
      (key : Bytes) (v : Float) (is_part : Bool) (state : Option (StreamerState Float))
      → IsPart (normalize_with_state f key v is_part state)
  unfolding normalize_with_state
  normalize-IsPart key v true state = clamp01-IsPart v
  normalize-IsPart key v false state = scale (field_in f key state)
    where
      scale : (o : Option (FieldState Float)) → IsPart (scaled f key v o)
      scale none = fallback_value-IsPart key v
      scale (some field) = if_IsPart _ _ _ (clamp01-IsPart _) (fallback_value-IsPart key v)

  abbrev pub ChangeIsPart : Bytes × Float → Type 0
  ChangeIsPart (key, v) = IsPart v

  change_of-IsPart :
      (state : Option (StreamerState Float)) (key : Bytes) (s : Option Bytes)
      (cs : List (Bytes × Float))
      → All ChangeIsPart cs
      → All ChangeIsPart (with_change f (change_of f state key s) cs)
  unfolding change_of
  change_of-IsPart state key none cs h = h
  change_of-IsPart state key (some s) cs h = read (parse_imaging_value f s)
    where
      read :
          (o : Option (Float × Bool))
          → All ChangeIsPart (
              with_change f
                (elim o [
                  | none ↦ none
                  | some (parsed, is_normalized) ↦
                      some (key, normalize_with_state f key parsed is_normalized state)
                ])
                cs)
      read none = h
      read (some (parsed, is_part)) = (normalize-IsPart key parsed is_part state, h)

  changes-IsPart :
      (find : Bytes → Option Bytes) (state : Option (StreamerState Float))
      (entries : List (Bytes × Bytes))
      → All ChangeIsPart (changes f find state entries)
  changes-IsPart find state [] = tt
  changes-IsPart find state ((tag, key) ∷ entries) =
      change_of-IsPart state key (find tag) (changes f find state entries)
        (changes-IsPart find state entries)

  asked-IsPart :
      (settings : Nodes) (state : Option (StreamerState Float))
      → All ChangeIsPart (asked f settings state)
  asked-IsPart settings state =
      All-append ChangeIsPart _ _
        (changes-IsPart (λ tag. find_child_value tag settings) state prudynt_map)
        (changes-IsPart (λ tag. find_mode_level_value tag settings) state prudynt_mode_level_map)

  -- Unless more than five changes are asked for, every value that SetImagingSettings collects for the
  -- streamer lies between 0 and 1 or is no number (NaN), whatever the numbers of the request and the ranges
  -- of the streamer are.
  pub requested_changes-IsPart :
      (settings : Nodes) (state : Option (StreamerState Float)) (w : Camera Float)
      → Ends
          (λ commands v. (v ≡ w) × All ChangeIsPart commands)
          (λ _. ⊥)
          (max_commands < length (asked f settings state))
          (requested_changes f settings state w)
  requested_changes-IsPart settings state w =
      let P = λ (commands : List (Bytes × Float)) (v : Camera Float).
        (v ≡ w) × All ChangeIsPart commands in
      let many = max_commands < length (asked f settings state) in
      subst (Ends P (λ _. ⊥) many) (sym (requested_changes-asked f settings state w))
        (elim (dec_lt max_commands (length (asked f settings state))) [
          | yes over ↦
              subst (Ends P (λ _. ⊥) many) (sym (within_array_over (asked f settings state) w over))
                over
          | no few ↦
              subst (Ends P (λ _. ⊥) many)
                (sym (within_array_room (asked f settings state) w (omega arith)))
                (refl, asked-IsPart settings state)
        ])
