-- ===== src/Auth/Tests.antt =====
-- Concrete requests for the authentication, with simple functions for base64 and SHA-1.
use thingino_onvif.Auth.{Account, SoapHeader, Synology}
use thingino_onvif.Base.{true, none, some, codes}
use thingino_onvif.Dispatch.{Advanced}

abbrev account : Account
account = record { username = some (codes "admin"); password = codes "secret" }

abbrev settings : Advanced
settings = record { adv_fault_if_set = 0; adv_fault_if_unknown = 0; adv_enable_media2 = 0 }

abbrev no_header : SoapHeader
no_header = λ name. none

abbrev recorder : Synology
recorder = record { synology_compat = true; adv_synology_nvr = 1 }
