-- ===== src/Events/Pull.antt =====
-- PullMessages of src/events_service.c, in its four locked parts: the checks, which also move the
-- expiry out of the way; the wait for a message; the new expiry; and the reply, which is made twice,
-- first to learn its length and then to send it. A `long` has 64 bits, so that the handler's test
-- of `limit` against its bounds never holds.
pub mod Passes
pub mod Waiting
pub mod Arrival
pub mod Lease
use thingino_onvif.Base.Int.{ℤ, pos, pos_part, ◌+ℤ◌, ltb_ℤ, leb_ℤ, is_zero_ℤ}
use thingino_onvif.Base.Mask.{test_bit, clear_bit}
use thingino_onvif.Base.{
  ℕ, zero, suc, ◌+◌, Bool, true, false, ◌&&◌, ◌||◌, not, List, [], ◌∷◌, ◌++◌, Option, none, some,
  if◌then◌else◌, Bytes, String, codes, equal,
}
use thingino_onvif.Events.Requests.Manage.{in_range, set_expire}
use thingino_onvif.Events.Requests.{Checked, pass, stop, ◌>>=◌, ◌>>◌, require, refuse_if}
use thingino_onvif.Events.Slots.{find_id, find_slot, update_slot}
use thingino_onvif.Events.State.{
  SubscriptionType, sub_unused, sub_pull, sub_push, Subscription, EventShm, Shm, EventConf,
  EventSource, ServiceContext, Request, send_action_failed_fault, resource_unknown,
}
use thingino_onvif.Text.Decimal.{atoi}
use thingino_onvif.Text.Interval.{interval2sec}
use thingino_onvif.Text.Query.{get_from_query_string}
use thingino_onvif.Text.Topic.{starts_with}

unfoldable pub is_pull : SubscriptionType → Bool
is_pull sub_pull = true
is_pull sub_unused = false
is_pull sub_push = false

-- What the handler carries from its first part into the others.
pub record Session : Type 0 where
  pub sub_index : ℕ
  pub limit : ℤ
  pub timeout : ℤ
  pub previous_expire_time : ℤ

-- `errno_set` says that `errno` is not 0 behind the call of `strtol`, which does not reset it.
unfoldable pub pull_begin : Bool → Request → Option Shm → Checked (Shm × Session)
unfolding is_pull in_range find_slot
pull_begin errno_set req memory = do
  value ← require (get_from_query_string req.query_string (codes "sub")) 1 (resource_unknown "")
  sub_id ← require (in_range 65535 (atoi value)) 2 (resource_unknown "")
  timeout ← require (req.body "Timeout") 3 (send_action_failed_fault 3)
  message_limit ← require (req.body "MessageLimit") 4 (send_action_failed_fault 4)
  let limit = atoi message_limit
  refuse_if (errno_set && is_zero_ℤ limit) 5 (send_action_failed_fault 5)
  shm ← require memory 6 (send_action_failed_fault 6)
  (sub_index, s) ← require (find_id sub_id shm.subscriptions) 7 (resource_unknown "")
  refuse_if (not (is_pull s.used)) 8 (resource_unknown "")
  let seconds = interval2sec timeout
  let begun = record shm {
    subscriptions =
        update_slot sub_index (set_expire (req.now +ℤ seconds +ℤ pos 10)) shm.subscriptions;
  }
  let session : Session = record {
    sub_index = sub_index;
    limit = limit;
    timeout = seconds;
    previous_expire_time = s.expire;
  }
  pass (begun, session)

-- A message waits for slot `j` among the events that are configured.
unfoldable pub any_pending : ℕ → List EventConf → List EventShm → Bool
any_pending j [] events = false
any_pending j (ev ∷ evs) [] = false
any_pending j (ev ∷ evs) (e ∷ events) = test_bit e.pull_notify j || any_pending j evs events

-- The loop that polls: each observation is the time, and the event records as that round reads
-- them. `none` says that the loop still runs when the observations end.
unfoldable pub wait_for_message : ℤ → ℕ → List EventConf → List (ℤ × List EventShm) → Option Bool
unfolding any_pending
wait_for_message deadline j evs [] = none
wait_for_message deadline j evs ((now, events) ∷ rest) =
    let later = wait_for_message deadline j evs rest in
    if leb_ℤ now deadline then if any_pending j evs events then some true else later else some false

-- The expiry after the wait: the old one, if that is later than the timeout from now.
unfoldable pub new_expire : Session → ℤ → ℤ
new_expire session now =
    if ltb_ℤ (now +ℤ session.timeout) session.previous_expire_time
    then session.previous_expire_time
    else now +ℤ session.timeout

unfoldable pub pull_expire : Session → ℤ → Shm → Shm
unfolding new_expire
pull_expire session now shm = record shm {
  subscriptions =
      update_slot session.sub_index (set_expire (new_expire session now)) shm.subscriptions;
}

-- `strstr(text, part) != NULL`
unfoldable pub contains : Bytes → Bytes → Bool
unfolding starts_with
contains part [] = starts_with part []
contains part (c ∷ s) = starts_with part (c ∷ s) || contains part s

abbrev pub relay_topic : Bytes
relay_topic = codes "tns1:Device/Trigger/Relay"

unfoldable pub data_name : Bytes → String
unfolding contains equal
data_name topic =
    if equal relay_topic topic
    then "LogicalState"
    else if contains (codes "VideoSource/MotionAlarm") topic
    then "State"
    else if contains (codes "CellMotionDetector/Motion") topic
    then "IsMotion"
    else "State"

unfoldable pub data_value : Bytes → Bool → String
unfolding equal
data_value topic true = if equal relay_topic topic then "active" else "true"
data_value topic false = if equal relay_topic topic then "inactive" else "false"

-- The parameters of PullMessages_2.xml.
pub record Notification : Type 0 where
  pub topic : Bytes
  pub utc_time : ℤ
  pub property : String
  pub sources : List EventSource
  pub data_name : String
  pub data_value : String

unfoldable pub notification : ℕ → ℤ → Bytes → EventConf → EventShm → Notification
unfolding data_name data_value
notification j now topic ev e =
    let first = test_bit e.pull_send_initialized j in
    record {
      topic = topic;
      utc_time = if first then now else e.e_time;
      property = if first then "Initialized" else "Changed";
      sources = ev.sources;
      data_name = data_name topic;
      data_value = data_value topic e.is_on;
    }

-- The notification for slot `j` that an event has waiting; one without a topic is skipped.
unfoldable pub waiting : ℕ → ℤ → EventConf → EventShm → Option Notification
unfolding notification
waiting j now ev e = elim ev.topic [
  | none ↦ none
  | some topic ↦ if test_bit e.pull_notify j then some (notification j now topic ev e) else none
]

abbrev pub delivered : ℕ → EventShm → EventShm
delivered j e = record e {
  pull_send_initialized = clear_bit e.pull_send_initialized j;
  pull_notify = clear_bit e.pull_notify j;
}

-- One pass over the events; only the second pass, `c == 1`, takes the bits back.
unfoldable pub pull_pass :
    Bool → ℤ → ℕ → ℤ → ℕ → List EventConf → List EventShm → List Notification × List EventShm
unfolding waiting
pull_pass second limit j now count [] events = ([], events)
pull_pass second limit j now count (ev ∷ evs) [] = ([], [])
pull_pass second limit j now count (ev ∷ evs) (e ∷ events) =
    let skip = pull_pass second limit j now count evs events in
    let take_it = pull_pass second limit j now (count + 1) evs events in
    if leb_ℤ limit (pos count) then ([], e ∷ events) else elim (waiting j now ev e) [
      | none ↦ (skip.0, e ∷ skip.1)
      | some n ↦ (n ∷ take_it.0, (if second then delivered j e else e) ∷ take_it.1)
    ]

-- The reply: what the first pass measures, what the second sends, and the memory behind them.
pub record Delivery : Type 0 where
  pub measured : List Notification
  pub sent : List Notification
  pub after : Shm

unfoldable pub pull_deliver : ServiceContext → Session → ℤ → Shm → Delivery
unfolding pull_pass
pull_deliver ctx session now shm =
    let first = pull_pass false session.limit session.sub_index now 0 ctx.events shm.events in
    let second = pull_pass true session.limit session.sub_index now 0 ctx.events first.1 in
    record { measured = first.0; sent = second.0; after = record shm { events = second.1 } }
