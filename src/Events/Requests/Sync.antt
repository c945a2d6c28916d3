-- ===== src/Events/Requests/Sync.antt =====
-- SetSynchronizationPoint of src/events_service.c. The identifier is compared with the number of
-- slots, and a slot's state of use is not looked at.
use thingino_onvif.Base.{[], Option, codes}
use thingino_onvif.Events.Requests.Manage.{in_range, set_need_sync}
use thingino_onvif.Events.Requests.{Checked, pass, ◌>>=◌, require, force_notification}
use thingino_onvif.Events.Slots.{find_id, find_slot, update_slot}
use thingino_onvif.Events.State.{
  max_subscriptions, Shm, ServiceContext, Request, send_action_failed_fault, Reply, served,
  resource_unknown,
}
use thingino_onvif.Text.Decimal.{atoi}
use thingino_onvif.Text.Query.{get_from_query_string}

unfoldable pub set_synchronization_point :
    ServiceContext → Request → Option Shm → Checked (Shm × Reply)
unfolding find_slot in_range
set_synchronization_point ctx req memory = do
  value ← require (get_from_query_string req.query_string (codes "sub")) 1 (resource_unknown "")
  sub_id ← require (in_range max_subscriptions (atoi value)) 2 (resource_unknown "")
  shm ← require memory 3 (send_action_failed_fault 3)
  (sub_index, s) ← require (find_id sub_id shm.subscriptions) 4 (resource_unknown "")
  let flagged = record shm { subscriptions = update_slot sub_index set_need_sync shm.subscriptions }
  pass (
    force_notification ctx sub_index flagged,
    served "events_service_files/SetSynchronizationPoint.xml" [],
  )
