-- ===== src/Imaging/Tests/Moves.antt =====
-- Requests for moves and presets, and reports.
use thingino_onvif.Base.Int.{ℤ, pos}
use thingino_onvif.Base.{[], ◌∷◌, some, ◌≡◌, refl, arith, codes, take}
use thingino_onvif.Text.Decimal.{print, scan_int}
use thingino_onvif.Xml.{end, element, Document}
use thingino_onvif.Xml.Walk.{plain}
use thingino_onvif.Imaging.{Camera, served, idle, find_imaging_entry}
use thingino_onvif.Imaging.Ends.{Ends}
use thingino_onvif.Imaging.Builder.{xml_builder_init, append_all, append_string_element}
use thingino_onvif.Imaging.Builder.Cut.{joined, append_all-joined}
use thingino_onvif.Imaging.Focus.{imaging_move, move_done}
use thingino_onvif.Imaging.Focus.Requests.{NamedMoved, NoneMoved, imaging_move-Ends}
use thingino_onvif.Imaging.Presets.{imaging_set_current_preset, chosen_page}
use thingino_onvif.Imaging.Tests.{hundredths, source, camera, leaf, document}

-- Absolute to 40, at the source V0.
abbrev move_request : Document
move_request = document (
    element (codes "Move")
      (leaf (codes "VideoSourceToken") (codes "v0") (
        element (codes "Focus")
          (element (codes "Absolute") (leaf (codes "Position") (codes "40") end) end) end))
      end)

abbrev moved : Camera ℤ
moved = record {
  imaging = record source { focus_state = idle; focus_last_position = some (pos 40) } ∷ [];
  commands = codes "focus 40" ∷ [];
  payloads = [];
}

imaging_move_runs :
    imaging_move hundredths plain move_request camera ≡ served (move_done hundredths) moved
unfolding imaging_move find_imaging_entry scan_int print
imaging_move_runs = refl

imaging_move-Ends_example :
    Ends
      (λ _ v. NamedMoved hundredths plain move_request camera v)
      (NoneMoved hundredths plain move_request camera)
      ⊥
      (imaging_move hundredths plain move_request camera)
imaging_move-Ends_example = imaging_move-Ends hundredths plain move_request camera

abbrev preset_request : Document
preset_request = document (
    element (codes "SetCurrentPreset")
      (leaf (codes "VideoSourceToken") (codes "V0")
        (leaf (codes "PresetToken") (codes "night") end))
      end)

imaging_set_current_preset_runs :
    imaging_set_current_preset hundredths preset_request camera
    ≡ served chosen_page (record {
      imaging = record source { current_preset_token = some (codes "Night") } ∷ [];
      commands = codes "apply Night" ∷ [];
      payloads = [];
    })
unfolding imaging_set_current_preset find_imaging_entry
imaging_set_current_preset_runs = refl

-- A report that does not fit is cut.
append_all_cut :
    (append_all
      (xml_builder_init 8)
      (append_string_element (codes "A") (some (codes "xy")))).written
    ≡ codes "<tt:A>x"
unfolding append_all xml_builder_init append_string_element
append_all_cut = refl

append_all-joined_example :
    (append_all (xml_builder_init 8) (codes "<tt:A>" ∷ codes "xyz" ∷ [])).written
    ≡ take 7 (joined (codes "<tt:A>" ∷ codes "xyz" ∷ []))
append_all-joined_example = append_all-joined 8 (codes "<tt:A>" ∷ codes "xyz" ∷ []) (omega arith)
