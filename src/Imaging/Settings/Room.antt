-- ===== src/Imaging/Settings/Room.antt =====
-- The array of changes of SetImagingSettings, and the values in it.
use native.Mathlib.Decide.{dec_lt}
use thingino_onvif.Base.{
  suc, ◌≤◌, ◌<◌, List, [], ◌∷◌, ◌++◌, Option, none, some, leb, if◌then◌else◌, Bytes, length, ◌≡◌,
  sym, ap, ◌∙◌, arith, append_assoc, append-nil, length-append,
}
use thingino_onvif.Xml.{Nodes}
use thingino_onvif.Imaging.{Floats, Camera, Handler, served, undefined, ◌>>=◌}
use thingino_onvif.Imaging.Ends.{bind_served, bind_undefined}
use thingino_onvif.Imaging.Streamer.{StreamerState}
use thingino_onvif.Imaging.Settings.{
  find_child_value, find_mode_level_value, prudynt_map, prudynt_mode_level_map, max_commands,
  stored_command, add_change, change_of, collect, requested_changes,
}

-- An array that overflows leaves the behaviour undefined.
abbrev pub within_array : {Float A : Type 0} → List A → Handler Float (List A)
within_array cs w = if leb (length cs) max_commands then served cs w else undefined

stored_command_room :
    {Float A : Type 0} (c : A) (cs : List A) (w : Camera Float)
    → length cs < max_commands
    → stored_command c cs w ≡ served (cs ++ c ∷ []) w
unfolding stored_command
stored_command_room c cs w h = ground arith

stored_command_full :
    {Float A : Type 0} (c : A) (cs : List A) (w : Camera Float)
    → max_commands ≤ length cs
    → stored_command c cs w ≡ undefined
unfolding stored_command
stored_command_full c cs w h = ground arith

pub within_array_over :
    {Float A : Type 0} (cs : List A) (w : Camera Float)
    → max_commands < length cs
    → within_array cs w ≡ undefined
within_array_over cs w h = ground arith

pub within_array_room :
    {Float A : Type 0} (cs : List A) (w : Camera Float)
    → length cs ≤ max_commands
    → within_array cs w ≡ served cs w
within_array_room cs w h = ground arith

module _ (f : Floats) where
  open f use {Float}

  abbrev pub with_change : Option (Bytes × Float) → List (Bytes × Float) → List (Bytes × Float)
  with_change none cs = cs
  with_change (some c) cs = c ∷ cs

  -- The changes that some entries ask for, in their order, however many.
  abbrev pub changes :
      (Bytes → Option Bytes)
      → Option (StreamerState Float)
      → List (Bytes × Bytes)
      → List (Bytes × Float)
  changes find state [] = []
  changes find state ((tag, key) ∷ entries) =
      with_change (change_of f state key (find tag)) (changes find state entries)

  module _ (find : Bytes → Option Bytes) (state : Option (StreamerState Float))
      (w : Camera Float) where
    -- One entry, in front of the others.
    collect_step :
        (o : Option (Bytes × Float)) (entries : List (Bytes × Bytes))
        (commands : List (Bytes × Float))
        → length commands ≤ max_commands
        → ((cs : List (Bytes × Float))
            → length cs ≤ max_commands
            → collect f find state entries cs w ≡ within_array (cs ++ changes find state entries) w)
        → (add_change o commands >>= collect f find state entries) w
          ≡ within_array (commands ++ with_change o (changes find state entries)) w
    collect_step none entries commands room later = later commands room
    collect_step (some c) entries commands room later =
        elim (dec_lt (length commands) max_commands) [
          | yes free ↦
              bind_served (stored_command c commands) (collect f find state entries) w
                (stored_command_room c commands w free)
              ∙ later (commands ++ c ∷ []) (omega (arith, length-append commands (c ∷ [])))
              ∙ ap (λ (cs : List (Bytes × Float)). within_array cs w)
                  (append_assoc commands (c ∷ []) (changes find state entries))
          | no full ↦
              bind_undefined (stored_command c commands) (collect f find state entries) w
                (stored_command_full c commands w (omega arith))
              ∙ sym (
                  within_array_over (commands ++ c ∷ changes find state entries) w
                    (omega (arith, length-append commands (c ∷ changes find state entries))))
        ]

    pub collect-changes :
        (entries : List (Bytes × Bytes)) (commands : List (Bytes × Float))
        → length commands ≤ max_commands
        → collect f find state entries commands w
          ≡ within_array (commands ++ changes find state entries) w
    unfolding collect
    collect-changes [] commands room =
        rw (append-nil commands) (sym (within_array_room commands w room))
    collect-changes ((tag, key) ∷ entries) commands room =
        collect_step (change_of f state key (find tag)) entries commands room
          (λ cs room'. collect-changes entries cs room')

    length-changes :
        (entries : List (Bytes × Bytes)) → length (changes find state entries) ≤ length entries
    length-changes [] = omega arith
    length-changes ((tag, key) ∷ entries) =
        go (change_of f state key (find tag)) (length-changes entries)
      where
        go :
            (o : Option (Bytes × Float))
            → length (changes find state entries) ≤ length entries
            → length (with_change o (changes find state entries)) ≤ suc (length entries)
        go none h = omega arith
        go (some c) h = omega arith

  -- All changes that some settings ask for: those of the elements with a value, then those of the
  -- elements with a level.
  abbrev pub asked : Nodes → Option (StreamerState Float) → List (Bytes × Float)
  asked settings state =
      changes (λ tag. find_child_value tag settings) state prudynt_map
      ++ changes (λ tag. find_mode_level_value tag settings) state prudynt_mode_level_map

  -- The changes that SetImagingSettings collects are those of all elements that have a readable number,
  -- as long as they are five at most; with more the array for them is overrun.
  pub requested_changes-asked :
      (settings : Nodes) (state : Option (StreamerState Float)) (w : Camera Float)
      → requested_changes f settings state w ≡ within_array (asked settings state) w
  unfolding requested_changes
  requested_changes-asked settings state w =
      let find = λ (tag : Bytes). find_child_value tag settings in
      let find_level = λ (tag : Bytes). find_mode_level_value tag settings in
      let values = changes find state prudynt_map in
      let few : length values ≤ max_commands = length-changes find state w prudynt_map in
      bind_served (collect f find state prudynt_map [])
        (collect f find_level state prudynt_mode_level_map) w
        (collect-changes find state w prudynt_map [] (omega arith) ∙ within_array_room values w few)
      ∙ collect-changes find_level state w prudynt_mode_level_map values few
