-- ===== src/Events/Requests/Manage.antt =====
-- Subscribe, Renew and Unsubscribe of src/events_service.c.
use thingino_onvif.Base.Int.{ℤ, pos, pos_part, ltb_ℤ, leb_ℤ}
use thingino_onvif.Base.{
  ℕ, Bool, true, ◌&&◌, ◌||◌, not, [], ◌∷◌, Option, none, some, if◌then◌else◌, Bytes, codes,
}
use thingino_onvif.Events.Requests.{
  Checked, pass, ◌>>=◌, ◌>>◌, require, refuse_if, termination_time, initial_termination_time,
  topic_filter, subscription_address, creation_failed,
}
use thingino_onvif.Events.Slots.{is_unused, find_id, find_slot, claim_slot, update_slot}
use thingino_onvif.Events.State.{
  sub_push, Subscription, Shm, ServiceContext, Request, send_fault, send_action_failed_fault, text,
  iso_date, new_uuid, Reply, served, refused, resource_unknown, cleared,
}
use thingino_onvif.Text.Decimal.{atoi, is_digit}
use thingino_onvif.Text.Query.{get_from_query_string}

unfoldable pub all_digits : Bytes → Bool
unfolding is_digit
all_digits [] = true
all_digits (c ∷ s) = is_digit c && all_digits s

-- An identifier from 1 to the limit.
unfoldable pub in_range : ℕ → ℤ → Option ℕ
in_range limit n = if leb_ℤ n (pos 0) || ltb_ℤ (pos limit) n then none else some (pos_part n)

-- The checks that Renew and Unsubscribe make on the parameter `sub`.
unfoldable pub checked_sub_id : Request → Checked ℕ
unfolding all_digits in_range
checked_sub_id req = do
  value ← require (get_from_query_string req.query_string (codes "sub")) 1 (resource_unknown "")
  refuse_if (not (all_digits value)) 2 (resource_unknown "Invalid subscription ID format")
  require (in_range 65535 (atoi value)) 2 (resource_unknown "Subscription ID out of valid range")

abbrev pub set_expire : ℤ → Subscription → Subscription
set_expire expire_time s = record s { expire = expire_time }

abbrev pub renew_reply : Request → ℤ → Reply
renew_reply req expire_time = served "events_service_files/Renew.xml" (
    ("%MSG_UUID%", new_uuid)
    ∷ ("%REL_TO_UUID%", elim (req.header "MessageID") [ none ↦ new_uuid | some id ↦ text id ])
    ∷ ("%CURRENT_TIME%", iso_date req.now)
    ∷ ("%TERMINATION_TIME%", iso_date expire_time)
    ∷ [])

unfoldable pub renew : Request → Option Shm → Checked (Shm × Reply)
unfolding find_slot is_unused
renew req memory = do
  sub_id ← checked_sub_id req
  term ←
      require (req.body "TerminationTime") 3
        (send_fault "wsntw:UnacceptableTerminationTimeFault" "Unacceptable termination time" "")
  let expire_time = termination_time req term
  shm ← require memory 4 (send_action_failed_fault 4)
  (sub_index, s) ← require (find_id sub_id shm.subscriptions) 5 (resource_unknown "")
  refuse_if (is_unused s.used) 6 (resource_unknown "")
  pass (
    record shm { subscriptions = update_slot sub_index (set_expire expire_time) shm.subscriptions },
    renew_reply req expire_time,
  )

abbrev pub clear_slot : ℕ → Shm → Shm
clear_slot i shm = record shm { subscriptions = update_slot i (λ s. cleared) shm.subscriptions }

unfoldable pub unsubscribe : Request → Option Shm → Checked (Shm × Reply)
unfolding find_slot is_unused
unsubscribe req memory = do
  sub_id ← checked_sub_id req
  shm ← require memory 3 (send_action_failed_fault 3)
  (sub_index, s) ← require (find_id sub_id shm.subscriptions) 4 (resource_unknown "")
  refuse_if (is_unused s.used) 5 (resource_unknown "")
  pass (clear_slot sub_index shm, served "events_service_files/Unsubscribe.xml" [])

abbrev pub set_need_sync : Subscription → Subscription
set_need_sync s = record s { push_need_sync = true }

-- The check of MessageID comes last: without one the reply is a fault, and the slot stays taken.
unfoldable pub subscribe :
    ServiceContext → (Shm → Shm) → Request → Option Shm → Checked (Shm × Reply)
subscribe ctx other req memory = do
  address ← require (req.body "Address") 1 (resource_unknown "")
  let te = topic_filter req (req.body "Filter")
  let expire_time = initial_termination_time req (req.body "InitialTerminationTime")
  shm ← require memory 4 (send_action_failed_fault 4)
  (sub_index, subscription_id, claimed) ←
      require (claim_slot sub_push expire_time (some address) te shm) 5 creation_failed
  let marked = record (other claimed) {
    subscriptions = update_slot sub_index set_need_sync (other claimed).subscriptions;
  }
  pass (
    marked,
    elim (req.header "MessageID") [
      | none ↦ refused 6 (send_action_failed_fault 6)
      | some relates_to ↦ served "events_service_files/Subscribe.xml" (
          ("%MSG_UUID%", new_uuid)
          ∷ ("%REL_TO_UUID%", text relates_to)
          ∷ ("%REFERENCE%", text (subscription_address ctx subscription_id))
          ∷ ("%CURRENT_TIME%", iso_date req.now)
          ∷ ("%TERMINATION_TIME%", iso_date expire_time)
          ∷ [])
    ],
  )
