-- ===== src/Ptz/Presets/Tests.antt =====
-- Concrete runs of the handlers of the presets, on a list of three.
use thingino_onvif.Base.Int.{ℤ, pos, negsuc}
use thingino_onvif.Base.{
  true, [], ◌∷◌, ◌++◌, ◌≡◌, ◌↔◌, ◌≤◌, refl, ap, Option, none, some, Bytes, codes, equal,
  if◌then◌else◌,
}
use thingino_onvif.Ptz.Presets.Buffers.{token_out-undefined}
use thingino_onvif.Ptz.Presets.Goto.{goto_preset-set_preset}
use thingino_onvif.Ptz.Presets.Unique.{IsTarget, IsGoodName, set_preset-IsGoodName}
use thingino_onvif.Ptz.Presets.{goto_done, Preset, numbered, labelled, init_presets, goto_preset}
use thingino_onvif.Ptz.Presets.Set.{token_out, find_name, World, set_preset}
use thingino_onvif.Ptz.{PtzNode, PtzRequest, served, refused, undefined, fault, check_profile, Page}
use thingino_onvif.Text.Decimal.{print}

abbrev node : PtzNode
node = record {
  enable = 1;
  get_presets = some (codes "presets");
  move_preset = some (codes "goto %d");
  set_preset = some (codes "set %d %s");
  remove_preset = some (codes "remove %d");
  goto_home_position = some (codes "home");
  set_home_position = none;
  is_moving = some (codes "moving");
  max_preset_tours = 0;
  preset_tour_start = none;
  preset_tour_stop = none;
  preset_tour_pause = none;
}

abbrev listing : Bytes
listing = codes "0=Door,10,20\n\n7=Gate,1,2,3\n12=Yard 4 5\n"

-- A request with a token and a name.
abbrev request : Option Bytes → Option Bytes → PtzRequest
request token name = record {
  has_profile_token = true;
  body = λ key.
      if equal (codes key) (codes "PresetToken")
      then token
      else if equal (codes key) (codes "PresetName")
      then name
      else some (codes "main");
}

abbrev world : Bytes → World
world after = record {
  profiles = none ∷ (some (codes "Main") ∷ []);
  moving = some (codes "0\n");
  uuid = codes "0123";
  before = some listing;
  after = some after;
}

three_presets :
    init_presets node (some listing)
    ≡ record { number = pos 0; name = codes "Door" }
      ∷ (record { number = pos 7; name = codes "Gate" }
          ∷ (record { number = pos 12; name = codes "Yard" } ∷ []))
unfolding init_presets
three_presets = refl

gate_reached :
    goto_preset node (request (some (codes "PresetToken_7")) none) (some listing)
    ≡ served (numbered (codes "goto %d") (pos 7), ("ptz_service_files/GotoPreset.xml", []))
unfolding goto_preset equal
gate_reached = refl

no_token_undefined : goto_preset node (request none none) (some listing) ≡ undefined
unfolding goto_preset equal
no_token_undefined = refl

lamp_set :
    set_preset node (request none (some (codes "Lamp"))) (world (listing ++ codes "13=lamp,0,0\n"))
    ≡ (
      some (labelled (codes "set %d %s") (negsuc 0) (codes "Lamp")),
      served ("ptz_service_files/SetPreset.xml", ("%PRESET_TOKEN%", codes "PresetToken_13") ∷ []),
    )
unfolding set_preset equal print
lamp_set = refl

abbrev new_lamp : PtzRequest
new_lamp = request none (some (codes "Lamp"))

abbrev lamp_world : World
lamp_world = world (listing ++ codes "13=lamp,0,0\n")

abbrev lamp : Preset
lamp = record { number = pos 13; name = codes "lamp" }

abbrev lamp_page : Page
lamp_page = ("ptz_service_files/SetPreset.xml", ("%PRESET_TOKEN%", codes "PresetToken_13") ∷ [])

-- A command that adds no preset is run, and answered by a fault.
full_room : set_preset node new_lamp (world listing) ≡ (
  some (labelled (codes "set %d %s") (negsuc 0) (codes "Lamp")),
  refused 10 (
      fault "Receiver" "ter:Action" "ter:TooManyPresets" "Too many presets"
        "Maximum number of presets reached"),
)
unfolding set_preset equal
full_room = refl

set_preset-IsGoodName_example :
    (format : Bytes) × (n : ℤ) × (name : Bytes) × (labelled
        (codes "set %d %s")
        (negsuc 0)
        (codes "Lamp")
      ≡ labelled format n name)
    × IsTarget none n (init_presets node (some listing))
    × IsGoodName none name (init_presets node (some listing))
unfolding equal
set_preset-IsGoodName_example =
    set_preset-IsGoodName node new_lamp (world listing)
      (labelled (codes "set %d %s") (negsuc 0) (codes "Lamp")) (ap (λ r. r.0) full_room)

lamp_found : find_name (codes "Lamp") (init_presets node lamp_world.after) ≡ some lamp
unfolding find_name init_presets
lamp_found = refl

goto_preset-set_preset_example :
    (token : Bytes) × (lamp_page
      ≡ ("ptz_service_files/SetPreset.xml", ("%PRESET_TOKEN%", token) ∷ []))
    × ((req' : PtzRequest) (move : Bytes)
        → check_profile node req' ≡ served tt
        → req'.body "PresetToken" ≡ some token
        → node.move_preset ≡ some move
        → goto_preset node req' lamp_world.after ≡ served (numbered move (pos 13), goto_done))
goto_preset-set_preset_example =
    goto_preset-set_preset node new_lamp lamp_world (codes "set %d %s") (codes "Lamp") (negsuc 0)
      lamp_page lamp 13 lamp_set lamp_found refl

abbrev thousandth : Preset
thousandth = record { number = pos 1000; name = codes "Gate" }

thousandth_found : find_name (codes "gate") (thousandth ∷ []) ≡ some thousandth
unfolding find_name
thousandth_found = refl

token_out-undefined_example :
    (token_out (codes "gate") (thousandth ∷ []) ≡ undefined) ↔ (1000 ≤ 1000)
token_out-undefined_example =
    token_out-undefined (codes "gate") (thousandth ∷ []) thousandth 1000 thousandth_found refl
