-- ===== src/Dispatch.antt =====
-- `dispatch_onvif_method` of src/onvif_dispatch.c: the search in the table, and the handlers for
-- methods that are not in it. Running a handler is an action, named by its C function.
pub mod Table
pub mod Choice
mod Tests
use thingino_onvif.Base.{
  ℕ, Bool, true, false, ◌&&◌, ◌||◌, List, [], ◌∷◌, Option, none, some, ◌==◌, if◌then◌else◌, Bytes,
  String, codes,
}
use thingino_onvif.Dispatch.Table.{
  Condition, always, condition_adv_fault_if_set, condition_adv_enable_media2, MethodEntry,
  onvif_dispatch_table,
}
use thingino_onvif.Text.Query.{equal_ignoring_case}

-- The settings of `service_ctx` that the conditions and the handlers of unknown methods read.
pub record Advanced : Type 0 where
  pub adv_fault_if_set : ℕ
  pub adv_fault_if_unknown : ℕ
  pub adv_enable_media2 : ℕ

unfoldable pub is_met : Advanced → Condition → Bool
is_met adv always = true
is_met adv condition_adv_fault_if_set = adv.adv_fault_if_set == 1
is_met adv condition_adv_enable_media2 = adv.adv_enable_media2 == 1

-- `strcasecmp(name, text) == 0` for a name that the source spells out.
unfoldable pub is_named : String → Bytes → Bool
unfolding equal_ignoring_case
is_named name text = equal_ignoring_case (codes name) text

-- What an `…_unsupported` function does: a fault, or an empty response under a prefix.
pub data Action : Type 0 where
  call : (handler : String) → Action
  action_failed : (service : String) → Action
  empty_response : (prefix : String) → (method : Bytes) → Action

abbrev unsupported : Advanced → String → String → Bytes → Action
unsupported adv service prefix method =
    if adv.adv_fault_if_unknown == 1 then action_failed service else empty_response prefix method

unfoldable pub unsupported_method : Advanced → Bytes → Bytes → Action
unfolding is_named
unsupported_method adv service method =
    if is_named "device_service" service
    then unsupported adv "device_service" "tds" method
    else if is_named "media_service" service
    then unsupported adv "media_service" "trt" method
    else if is_named "media2_service" service
    then unsupported adv "media2_service" "tr2" method
    else if is_named "deviceio_service" service
    then unsupported adv "deviceio_service" "tmd" method
    else if is_named "ptz_service" service
    then unsupported adv "ptz_service" "tptz" method
    else if is_named "events_service" service
    then unsupported adv "events_service" "tev" method
    else if is_named "imaging_service" service
    then unsupported adv "imaging_service" "timg" method
    else unsupported adv "device_service" "tds" method

abbrev pub is_entry_for : Bytes → Bytes → MethodEntry → Bool
is_entry_for service method e = is_named e.service service && is_named e.method method

-- The first entry with both names whose condition is met.
unfoldable pub find_entry : Advanced → Bytes → Bytes → List MethodEntry → Option MethodEntry
unfolding is_named is_met
find_entry adv service method [] = none
find_entry adv service method (e ∷ es) =
    let later = find_entry adv service method es in
    if is_entry_for service method e && is_met adv e.condition then some e else later

-- A null pointer for a name ends the function with -1, here `none`.
unfoldable pub dispatch_onvif_method : Advanced → Option Bytes → Option Bytes → Option Action
unfolding find_entry unsupported_method
dispatch_onvif_method adv none method = none
dispatch_onvif_method adv (some service) none = none
dispatch_onvif_method adv (some service) (some method) =
    elim (find_entry adv service method onvif_dispatch_table) [
      | none ↦ some (unsupported_method adv service method)
      | some e ↦ some (call e.handler)
    ]
