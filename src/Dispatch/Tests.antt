-- ===== src/Dispatch/Tests.antt =====
-- Concrete requests for the dispatcher.
use thingino_onvif.Base.{some, ◌≡◌, refl, codes}
use thingino_onvif.Dispatch.Choice.{dispatch_onvif_method_entry}
use thingino_onvif.Dispatch.Table.{always, MethodEntry, onvif_dispatch_table}
use thingino_onvif.Dispatch.{Advanced, is_met, is_named, call, dispatch_onvif_method}

abbrev plain : Advanced
plain = record { adv_fault_if_set = 0; adv_fault_if_unknown = 0; adv_enable_media2 = 0 }

abbrev get_scopes : MethodEntry
get_scopes = record {
  service = "device_service";
  method = "GetScopes";
  handler = "device_get_scopes";
  condition = always;
}

dispatch_onvif_method_entry_example :
    dispatch_onvif_method plain (some (codes "Device_Service")) (some (codes "getScopes"))
    ≡ some (call "device_get_scopes")
unfolding onvif_dispatch_table is_named is_met
dispatch_onvif_method_entry_example =
    dispatch_onvif_method_entry plain (codes "Device_Service") (codes "getScopes") 6 get_scopes refl
      refl refl
