-- ===== src/Events/Requests.antt =====
-- The request handlers of src/events_service.c, but for PullMessages and GetEventProperties. The
-- semaphore is taken as it is meant: between two locked parts of a handler the other processes
-- change the shared memory, by a function that is an argument. Logging is left out.
pub mod Manage
pub mod Sync
pub mod Create
pub mod Address
pub mod Corners
use thingino_onvif.Base.Int.{ℤ, pos, pos_part, ◌+ℤ◌, ltb_ℤ, leb_ℤ}
use thingino_onvif.Base.{
  ℕ, zero, suc, Bool, true, false, ◌&&◌, ◌||◌, not, List, [], ◌∷◌, ◌++◌, Option, none, some, ◌==◌,
  if◌then◌else◌, Bytes, String, codes, length, set,
}
use thingino_onvif.Base.Mask.{set_bit}
use thingino_onvif.Events.Slots.{is_unused, find_id, find_slot, claim_slot, update_slot}
use thingino_onvif.Events.State.{
  sub_unused, sub_pull, sub_push, Subscription, EventShm, Shm, EventConf, ServiceContext, Request,
  Fault, send_fault, send_action_failed_fault, Parameter, text, iso_date, new_uuid, Reply, served,
  refused, resource_unknown, cleared,
}
use thingino_onvif.Text.Decimal.{print, atoi, is_digit}
use thingino_onvif.Text.Interval.{interval2sec}
use thingino_onvif.Text.Query.{get_from_query_string}
use thingino_onvif.Text.Topic.{starts_with, is_topic_in_expression}

-- A handler stops at its first failed check, with a reply and the memory untouched.
pub data Checked {ℓ} (A : Type ℓ) : Type ℓ where
  pass : A → Checked A
  stop : ℕ → Fault → Checked A

infixl 5 ◌>>=◌ ◌>>◌
abbrev pub ◌>>=◌ {ℓ κ} : {A : Type ℓ} {B : Type κ} → Checked A → (A → Checked B) → Checked B
pass a >>= f = f a
stop code fault >>= f = stop code fault

abbrev pub ◌>>◌ {ℓ} : {B : Type ℓ} → Checked (Unit {0}) → Checked B → Checked B
m >> k = m >>= λ _. k

abbrev pub require {ℓ} : {A : Type ℓ} → Option A → ℕ → Fault → Checked A
require none code fault = stop code fault
require (some a) code fault = pass a

abbrev pub refuse_if : Bool → ℕ → Fault → Checked (Unit {0})
refuse_if true code fault = stop code fault
refuse_if false code fault = pass tt

-- The memory and the reply when a handler is done.
abbrev pub outcome : Option Shm → Checked (Shm × Reply) → Option Shm × Reply
outcome before (pass (after, reply)) = (some after, reply)
outcome before (stop code fault) = (before, refused code fault)

-- The termination time that a request asks for: an interval from now, or a date.
unfoldable pub termination_time : Request → Bytes → ℤ
termination_time req itt =
    if starts_with (codes "PT") itt then req.now +ℤ interval2sec itt else req.from_iso_date itt

-- Ten minutes if the request names no time.
unfoldable pub initial_termination_time : Request → Option Bytes → ℤ
unfolding termination_time
initial_termination_time req none = req.now +ℤ pos 600
initial_termination_time req (some itt) = termination_time req itt

abbrev pub topic_filter : Request → Option Bytes → Option Bytes
topic_filter req none = none
topic_filter req (some element) = req.body "TopicExpression"

abbrev port_text : ℕ → Bytes
port_text port = if port == 80 then [] else b':' ∷ print port

-- The address of a subscription.
unfoldable pub subscription_address : ServiceContext → ℕ → Bytes
subscription_address ctx id =
    codes "http://"
    ++ (ctx.my_address ++ (port_text ctx.port ++ (codes "/onvif/events_service?sub=" ++ print id)))

abbrev pub matches : Bytes → EventConf → Bool
matches te ev = elim ev.topic [ none ↦ false | some t ↦ is_topic_in_expression (some te) (some t) ]

-- Every event that the filter lets through is reported once with its present state.
unfoldable pub mark_initialized : Bytes → ℕ → List EventConf → List EventShm → List EventShm
mark_initialized te j [] events = events
mark_initialized te j (ev ∷ evs) [] = []
mark_initialized te j (ev ∷ evs) (e ∷ events) =
    (if matches te ev
      then record e {
        pull_send_initialized = set_bit e.pull_send_initialized j;
        pull_notify = set_bit e.pull_notify j;
      }
      else e)
    ∷ mark_initialized te j evs events

-- The filter in a slot.
unfoldable pub expression_at : ℕ → List Subscription → Bytes
expression_at j [] = []
expression_at zero (s ∷ subs) = s.topic_expression
expression_at (suc j) (s ∷ subs) = expression_at j subs

unfoldable pub force_notification : ServiceContext → ℕ → Shm → Shm
unfolding mark_initialized expression_at
force_notification ctx j shm = record shm {
  events = mark_initialized (expression_at j shm.subscriptions) j ctx.events shm.events;
}

abbrev pub creation_failed : Fault
creation_failed =
    send_fault "wsntw:SubscribeCreationFailedFault" "Subscribe creation failed fault" ""

-- `other` is what the other processes do between the two locked parts.
unfoldable pub create_pull_point_subscription :
    ServiceContext → (Shm → Shm) → Request → Option Shm → Checked (Shm × Reply)
create_pull_point_subscription ctx other req memory = do
  let te = topic_filter req (req.body "Filter")
  let expire_time = initial_termination_time req (req.body "InitialTerminationTime")
  shm ←
      require memory 3
        (send_fault "wsntw:UnableToCreatePullPointFault" "Unable to create pull point" "")
  (sub_index, subscription_id, claimed) ←
      require (claim_slot sub_pull expire_time none te shm) 4 creation_failed
  pass (
    force_notification ctx sub_index (other claimed),
    served "events_service_files/CreatePullPointSubscription.xml" (
        ("%ADDRESS%", text (subscription_address ctx subscription_id))
        ∷ ("%CURRENT_TIME%", iso_date req.now)
        ∷ ("%TERMINATION_TIME%", iso_date expire_time)
        ∷ []),
  )
