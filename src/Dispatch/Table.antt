-- ===== src/Dispatch/Table.antt =====
-- The dispatch table of src/onvif_dispatch.c.
pub mod Methods
use thingino_onvif.Base.{List, [], ◌∷◌, ◌++◌, String}
use thingino_onvif.Dispatch.Table.Methods.{
  device_methods, deviceio_methods, media_methods, media_set_methods, media_more_methods,
  imaging_methods, ptz_methods, events_methods, media2_methods, media2_set_methods,
  media2_more_methods,
}

-- The condition functions; `always` stands for the null pointer.
pub data Condition : Type 0 where
  always condition_adv_fault_if_set condition_adv_enable_media2 : Condition

-- `onvif_method_entry_t`
pub record MethodEntry : Type 0 where
  pub service : String
  pub method : String
  pub handler : String
  pub condition : Condition

-- The entries of one service under one condition: the methods with their handlers.
abbrev entries : String → Condition → List (String × String) → List MethodEntry
entries service condition [] = []
entries service condition ((method, handler) ∷ rest) =
    record { service = service; method = method; handler = handler; condition = condition }
    ∷ entries service condition rest

unfoldable pub onvif_dispatch_table : List MethodEntry
onvif_dispatch_table =
    (entries "device_service" always device_methods
      ++ (entries "deviceio_service" always deviceio_methods
          ++ (entries "media_service" always media_methods
              ++ (entries "media_service" condition_adv_fault_if_set media_set_methods
                  ++ (entries "media_service" always media_more_methods
                      ++ (entries "imaging_service" always imaging_methods
                          ++ (entries "ptz_service" always ptz_methods
                              ++ (entries "events_service" always events_methods
                                  ++ (entries "media2_service" condition_adv_enable_media2
                                        media2_methods
                                      ++ (entries "media2_service" condition_adv_fault_if_set
                                            media2_set_methods
                                          ++ entries "media2_service" condition_adv_enable_media2
                                              media2_more_methods))))))))))
