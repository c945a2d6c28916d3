-- ===== src/Ptz/Tours/Tests.antt =====
-- Concrete runs of the handlers of the preset tours, from the empty table on.
use thingino_onvif.Base.{
  true, [], ◌∷◌, ◌≡◌, ◌^◌, ◌<◌, refl, arith, Option, none, some, Bytes, String, codes, equal,
  length, if◌then◌else◌, take, All,
}
use thingino_onvif.Base.Int.{wrap32}
use thingino_onvif.Text.Decimal.{print}
use thingino_onvif.Ptz.Tours.Kept.{IsTourTable, run-IsTourTable}
use thingino_onvif.Ptz.Tours.Read.{tour_page, get_preset_tour-create_preset_tour}
use thingino_onvif.Ptz.Tours.Refine.{run-promised}
use thingino_onvif.Ptz.Tours.Promise.{TourCall, create, operate, run, promised, changed}
use thingino_onvif.Ptz.Tours.Reload.{tours_ensure_loaded-tours_save}
use thingino_onvif.Ptz.Tours.Pieces.{IsStorable}
use thingino_onvif.Ptz.Tours.Store.{tours_save, tours_ensure_loaded}
use thingino_onvif.Ptz.Tours.View.{view, Distinct}
use thingino_onvif.Ptz.Tours.{
  Tour, create_preset_tour, get_preset_tour, operate_preset_tour, next_tour_number, text_or_empty,
  update_tour,
}
use thingino_onvif.Ptz.{PtzNode, PtzRequest, served, refused, check_profile, action_failed, Page}

abbrev node : PtzNode
node = record {
  enable = 1;
  get_presets = some (codes "presets");
  move_preset = some (codes "goto %d");
  set_preset = some (codes "set %d %s");
  remove_preset = some (codes "remove %d");
  goto_home_position = some (codes "home");
  set_home_position = none;
  is_moving = none;
  max_preset_tours = 2;
  preset_tour_start = some (codes "tour %s start");
  preset_tour_stop = some (codes "tour %s stop");
  preset_tour_pause = none;
}

-- A request for a tour, with a name and an operation.
abbrev request : String → Option Bytes → PtzRequest
request token name = record {
  has_profile_token = true;
  body = λ key.
      if equal (codes key) (codes "Name")
      then name
      else if equal (codes key) (codes "Operation")
      then some (codes "START")
      else some (codes token);
}

abbrev gate : Tour
gate = record { token = codes "PresetTourToken_1"; name = codes "Gate"; status = codes "Idle" }

abbrev yard : Tour
yard = record { token = codes "PresetTourToken_2"; name = codes "Yard"; status = codes "Idle" }

abbrev named_yard : PtzRequest
named_yard = request "" (some (codes "Yard"))

one_tour_Distinct : Distinct (gate ∷ [])
unfolding view
one_tour_Distinct = (refl, tt)

one_tour_next : next_tour_number (gate ∷ []) < 2 ^ 31
unfolding next_tour_number wrap32
one_tour_next = omega arith

yard_created :
    create_preset_tour node named_yard (gate ∷ [])
    ≡ served (
      gate ∷ (yard ∷ []),
      ("ptz_service_files/CreatePresetTour.xml", ("%TOKEN%", codes "PresetTourToken_2") ∷ []),
    )
unfolding create_preset_tour print equal wrap32
yard_created = refl

third_tour_refused :
    create_preset_tour node named_yard (gate ∷ (yard ∷ [])) ≡ refused 3 (action_failed 3)
unfolding create_preset_tour
third_tour_refused = refl

yard_touring :
    run operate node (request "PresetTourToken_2" none) (gate ∷ (yard ∷ []))
    ≡ served (gate ∷ (record yard { status = codes "Touring" } ∷ []))
unfolding run operate_preset_tour equal update_tour
yard_touring = refl

run-promised_example :
    (token : Bytes) × (view (gate ∷ []) token ≡ none)
    × ((call : TourCall)
        → changed view (run call node named_yard (gate ∷ []))
          ≡ promised call node named_yard (length (gate ∷ [])) token (view (gate ∷ [])))
run-promised_example = run-promised node named_yard (gate ∷ []) one_tour_Distinct one_tour_next

run-yard : run create node named_yard (gate ∷ []) ≡ served (gate ∷ (yard ∷ []))
unfolding run create_preset_tour print equal wrap32
run-yard = refl

run-IsTourTable_example : IsTourTable node (gate ∷ (yard ∷ []))
run-IsTourTable_example =
    run-IsTourTable node named_yard create (gate ∷ []) (gate ∷ (yard ∷ []))
      (record { distinct = one_tour_Distinct; bounded = λ h. omega arith }) one_tour_next run-yard

tours_stored : All IsStorable (gate ∷ (yard ∷ []))
unfolding equal
tours_stored = ground arith

get_preset_tour-create_preset_tour_example :
    (token : Bytes) × (◌≡◌ {A = Page}
      ("ptz_service_files/CreatePresetTour.xml", ("%TOKEN%", codes "PresetTourToken_2") ∷ [])
      ("ptz_service_files/CreatePresetTour.xml", ("%TOKEN%", token) ∷ []))
    × ((req' : PtzRequest)
        → check_profile node req' ≡ served tt
        → req'.body "PresetTourToken" ≡ some token
        → get_preset_tour node req' (tours_ensure_loaded (some (tours_save (gate ∷ (yard ∷ [])))))
          ≡ served
              (tour_page token (take 63 (text_or_empty (named_yard.body "Name")), codes "Idle")))
unfolding tours_save
get_preset_tour-create_preset_tour_example =
    get_preset_tour-create_preset_tour node named_yard (gate ∷ []) (gate ∷ (yard ∷ []))
      ("ptz_service_files/CreatePresetTour.xml", ("%TOKEN%", codes "PresetTourToken_2") ∷ [])
      one_tour_next yard_created tours_stored (omega arith)

tours_ensure_loaded-tours_save_example :
    tours_ensure_loaded (some (tours_save (gate ∷ (yard ∷ [])))) ≡ gate ∷ (yard ∷ [])
unfolding tours_save
tours_ensure_loaded-tours_save_example =
    tours_ensure_loaded-tours_save (gate ∷ (yard ∷ [])) tours_stored (omega arith)

-- The name `token` is taken for a key: a tour appears that nobody made.
tour_named_token :
    tours_ensure_loaded (some (tours_save (record gate { name = codes "token" } ∷ [])))
    ≡ record gate { name = codes "token" }
      ∷ (record { token = codes "Idle"; name = []; status = codes "Idle" } ∷ [])
unfolding tours_ensure_loaded tours_save
tour_named_token = refl
