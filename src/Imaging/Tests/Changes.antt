-- ===== src/Imaging/Tests/Changes.antt =====
-- Requests for settings, and the streamer.
use thingino_onvif.Base.Int.{ℤ, pos, ltb_ℤ, leb_ℤ, ◌-ℤ◌}
use thingino_onvif.Base.{
  ℕ, ◌<◌, Bool, true, false, [], ◌∷◌, none, some, ◌≡◌, ◌↔◌, refl, ap, arith, codes, Bytes, length,
  All, if◌then◌else◌, equal, ltb,
}
use thingino_onvif.Xml.{Nodes, end, element, Document}
use thingino_onvif.Text.Decimal.{print, scan_int}
use thingino_onvif.Xml.{first_child, get_element}
use thingino_onvif.Xml.Pointer.{get_element_ptr}
use thingino_onvif.Xml.Walk.{plain}
use thingino_onvif.Imaging.{
  Camera, served, refused, undefined, off, find_imaging_entry, source_token,
  execute_backend_command,
}
use thingino_onvif.Imaging.Ends.{Ends}
use thingino_onvif.Imaging.Streamer.{
  FieldNode, StateFile, payload, apply_imaging_changes, wait_for, wait_limit_of, load_imaging_state,
}
use thingino_onvif.Imaging.Streamer.Waiting.{ShowsInTime, apply_imaging_changes_iff}
use thingino_onvif.Imaging.Settings.{
  ircut_mode_from_string, supports, same_mode, ircut_command, StreamerRun, max_commands, set_ircut,
  change_of, find_child_value, find_mode_level_value, parse_imaging_value, normalize_with_state,
  requested_changes, set_imaging_settings, not_applied,
}
use thingino_onvif.Imaging.Settings.Room.{asked, within_array, requested_changes-asked}
use thingino_onvif.Imaging.Settings.Values.{ChangeIsPart, requested_changes-IsPart}
use thingino_onvif.Imaging.Settings.Ircut.{ModeAsAsked, set_ircut-ModeAsAsked}
use thingino_onvif.Imaging.Settings.Failing.{
  set_imaging_settings_overrun, set_imaging_settings-not_applied,
}
use thingino_onvif.Imaging.Tests.{hundredths, source, camera, leaf, document}

-- The brightness is 128 of 255 from the third interval on.
abbrev brightness : ℤ → Bytes → FieldNode ℤ
brightness n name =
    if equal name (codes "brightness")
    then record { value = some n; min = some (pos 0); max = some (pos 25500) }
    else record { value = none; min = none; max = none }

abbrev files : ℕ → StateFile ℤ
files k = some (brightness (if ltb k 2 then pos 0 else pos 12800))

apply_imaging_changes_waits :
    apply_imaging_changes hundredths ((codes "brightness", pos 50) ∷ []) (pos 1500) true files
    ≡ (some (codes "SET brightness=50\n"), true)
unfolding apply_imaging_changes payload wait_for wait_limit_of print ◌-ℤ◌
apply_imaging_changes_waits = refl

apply_imaging_changes_iff_example :
    ((apply_imaging_changes hundredths ((codes "brightness", pos 50) ∷ []) (pos 1500) true files).1
      ≡ true)
    ↔ (((line : Bytes) × (payload hundredths ((codes "brightness", pos 50) ∷ []) ≡ some line))
        × (◌≡◌ {A = Bool} true true)
        × ShowsInTime hundredths ((codes "brightness", pos 50) ∷ []) (pos 1500) files)
apply_imaging_changes_iff_example =
    apply_imaging_changes_iff hundredths (codes "brightness", pos 50) [] (pos 1500) true files

abbrev run : StreamerRun ℤ
run = record { before = none; takes = true; files = files }

-- Settings that turn the cut filter off, with some more elements.
abbrev settings : Nodes → Nodes
settings more =
    element (codes "ImagingSettings")
      (leaf (codes "IrCutFilter") (codes "OFF") (leaf (codes "Brightness") (codes "7") more)) end

abbrev level : Bytes → Nodes → Nodes
level name next = element name (leaf (codes "Level") (codes "5") end) next

abbrev four_levels : Nodes
four_levels = level (codes "BacklightCompensation") (
    level (codes "WideDynamicRange")
      (level (codes "ToneCompensation") (level (codes "Defogging") end)))

abbrev request : Nodes → Document
request more = document (element (codes "SetImagingSettings") (settings more) end)

abbrev is_off : Camera ℤ
is_off = record {
  imaging = record source { ircut_mode = off } ∷ [];
  commands = codes "irc off" ∷ [];
  payloads = [];
}

requested_changes-asked_example :
    requested_changes hundredths (settings four_levels) none camera
    ≡ within_array (asked hundredths (settings four_levels) none) camera
requested_changes-asked_example =
    requested_changes-asked hundredths (settings four_levels) none camera

leb_ℤ_of_not_ltb :
    (a b : ℤ) → leb_ℤ a a ≡ true → leb_ℤ b b ≡ true → ltb_ℤ a b ≡ false → leb_ℤ b a ≡ true
leb_ℤ_of_not_ltb a b ha hb h = ground arith

requested_changes-IsPart_example :
    Ends
      (λ commands v.
        (v ≡ camera) × All (ChangeIsPart hundredths leb_ℤ_of_not_ltb refl refl refl) commands)
      (λ _. ⊥)
      (max_commands < length (asked hundredths (settings four_levels) none))
      (requested_changes hundredths (settings four_levels) none camera)
requested_changes-IsPart_example =
    requested_changes-IsPart hundredths leb_ℤ_of_not_ltb refl refl refl (settings four_levels) none
      camera

set_ircut-ModeAsAsked_example :
    Ends
      (λ _ v. ModeAsAsked camera 0 source refl (some (codes "off")) v)
      (λ v. v ≡ camera)
      ⊥
      (set_ircut 0 source (some (codes "off")) camera)
set_ircut-ModeAsAsked_example = set_ircut-ModeAsAsked camera 0 source refl (some (codes "off"))

abbrev six_values : Nodes
six_values = leaf (codes "Contrast") (codes "9") four_levels

abbrev lost : StreamerRun ℤ
lost = record { before = none; takes = false; files = files }

six_found : find_imaging_entry (source_token (request six_values)) camera.imaging ≡ some 0
unfolding find_imaging_entry get_element
six_found = refl

one_found : find_imaging_entry (source_token (request end)) camera.imaging ≡ some 0
unfolding find_imaging_entry get_element
one_found = refl

six_wanted :
    length (asked hundredths (settings six_values) (load_imaging_state hundredths none)) ≡ 6
unfolding load_imaging_state change_of find_child_value find_mode_level_value scan_int
    parse_imaging_value
six_wanted = refl

is_settings :
    (more : Nodes)
    → get_element_ptr plain (request more) none (codes "ImagingSettings") (some (codes "Body"))
      ≡ some (settings more)
unfolding get_element_ptr first_child
is_settings more = refl

turned_off :
    (more : Nodes)
    → set_ircut 0 source (find_child_value (codes "IrCutFilter") (settings more)) camera
      ≡ served tt is_off
unfolding set_ircut find_child_value ircut_mode_from_string supports same_mode
    execute_backend_command ircut_command
turned_off more = refl

-- Six values overrun the array of five.
set_imaging_settings_overrun_example :
    set_imaging_settings hundredths plain (request six_values) run camera ≡ undefined
set_imaging_settings_overrun_example =
    set_imaging_settings_overrun hundredths plain (request six_values) run camera is_off 0 source
      (settings six_values) six_found refl (is_settings six_values) (turned_off six_values)
      (omega (arith, six_wanted))

one_wanted :
    asked hundredths (settings end) (load_imaging_state hundredths none)
    ≡ (codes "brightness", pos 7) ∷ []
unfolding load_imaging_state change_of find_child_value find_mode_level_value scan_int
    parse_imaging_value normalize_with_state
one_wanted = refl

not_taken :
    (apply_imaging_changes hundredths ((codes "brightness", pos 7) ∷ []) (pos 1500) false files).1
    ≡ false
unfolding apply_imaging_changes payload print
not_taken = refl

set_imaging_settings-not_applied_example :
    (u : Camera ℤ) × (set_imaging_settings hundredths plain (request end) lost camera
      ≡ refused not_applied u)
    × (u.imaging ≡ is_off.imaging)
    × (u.commands ≡ is_off.commands)
set_imaging_settings-not_applied_example =
    set_imaging_settings-not_applied hundredths plain (request end) lost camera is_off 0 source
      (settings end) one_found refl (is_settings end) (turned_off end) (codes "brightness", pos 7)
      [] one_wanted (omega (arith, ap length one_wanted)) not_taken
