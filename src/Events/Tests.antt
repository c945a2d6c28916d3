-- ===== src/Events/Tests.antt =====
-- Concrete runs of the subscription handlers: a device with two events, from the initial memory on.
mod Delivery
mod Reports
mod Consumer
use thingino_onvif.Base.Int.{ℤ, pos, ◌+ℤ◌}
use thingino_onvif.Base.{
  ℕ, zero, suc, Bool, true, false, List, [], ◌∷◌, ◌++◌, Option, none, some, ◌≡◌, ◌≢◌, ◌↔◌, refl,
  arith, Bytes, codes, String, set, get_elem?, All, ltb,
}
use thingino_onvif.Events.Notify.Cleaning.{clean_expired_subscriptions}
use thingino_onvif.Events.Pull.Passes.{all_waiting}
use thingino_onvif.Events.Requests.Address.{query_part, query_part-subscription_address}
use thingino_onvif.Events.Requests.Corners.{
  claim_slot_wraps, claim_slot_zero_expire, claim_slot-clear_slot, subscribe_without_message_id,
  set_synchronization_point_above_slots,
}
use thingino_onvif.Events.Requests.Create.{renew-claim_slot, unsubscribe-claim_slot}
use thingino_onvif.Events.Requests.Manage.{
  renew, unsubscribe, renew_reply, set_expire, clear_slot, subscribe, set_need_sync,
}
use thingino_onvif.Events.Requests.Sync.{set_synchronization_point}
use thingino_onvif.Events.Requests.{
  Checked, pass, stop, subscription_address, termination_time, create_pull_point_subscription,
  force_notification, initial_termination_time, topic_filter,
}
use thingino_onvif.Events.Slots.Claim.{claim_slot-none, claim_slot-find_id}
use thingino_onvif.Events.Slots.Ids.{IsWellFormed}
use thingino_onvif.Events.Slots.Start.{initial-IsWellFormed}
use thingino_onvif.Events.Slots.{
  is_unused, max_id, next_id, find_id, find_slot, fill_slot, claim_slot, update_slot,
}
use thingino_onvif.Events.State.{
  SubscriptionType, sub_pull, sub_push, Subscription, Shm, EventConf, ServiceContext, Request,
  send_action_failed_fault, Reply, served, refused, resource_unknown, cleared, silent, initial,
  text, iso_date,
}
use thingino_onvif.Events.Steps.Handlers.{Call, create_pull_point_call, handle, handle-IsWellFormed}
use thingino_onvif.Events.Steps.{Step, Reach, here, next, clean, Reach-IsWellFormed}
use thingino_onvif.Text.Decimal.{print}
use thingino_onvif.Text.Topic.{is_topic_in_expression}

abbrev pub motion : EventConf
motion = record {
  topic = some (codes "tns1:VideoSource/MotionAlarm");
  sources = record { name = codes "Source"; type = []; value = codes "video_src" } ∷ [];
  input_file = codes "/run/motion";
}

abbrev pub relay : EventConf
relay = record {
  topic = some (codes "tns1:Device/Trigger/Relay");
  sources = [];
  input_file = codes "/run/relay";
}

abbrev pub device : ServiceContext
device = record {
  port = 8080;
  my_address = codes "192.168.1.10";
  events = motion ∷ relay ∷ [];
  events_enable = 3;
  events_min_interval_ms = pos 0;
}

-- A request with a query string, whose elements all have the same text.
abbrev pub request : String → Option Bytes → Request
request query element = record {
  query_string = some (codes query);
  header = λ name. none;
  body = λ name. element;
  now = pos 1000;
  from_iso_date = λ date. pos 0;
}

-- The memory behind the first subscription.
abbrev pub first_claimed : ℤ → Shm
first_claimed expire = record initial {
  subscriptions = set initial.subscriptions 0 (fill_slot sub_pull 1 expire none none cleared);
}

pub first_claim :
    (expire : ℤ) → claim_slot sub_pull expire none none initial ≡ some (0, 1, first_claimed expire)
unfolding claim_slot
first_claim expire = refl

room : max_id 0 initial.subscriptions ≢ 65535
unfolding max_id
room = omega arith

pull_point_in_use : is_unused sub_pull ≡ false
unfolding is_unused
pull_point_in_use = refl

renew-claim_slot_example :
    renew (request "sub=1" (some (codes "PT1M"))) (some (first_claimed (pos 9)))
    ≡ pass (
      record (first_claimed (pos 9)) {
        subscriptions =
            update_slot 0
              (set_expire (termination_time (request "sub=1" (some (codes "PT1M"))) (codes "PT1M")))
              (first_claimed (pos 9)).subscriptions;
      },
      renew_reply
          (request "sub=1" (some (codes "PT1M")))
          (termination_time (request "sub=1" (some (codes "PT1M"))) (codes "PT1M")),
    )
unfolding subscription_address print
renew-claim_slot_example =
    renew-claim_slot device sub_pull (pos 9) none none initial 0 1 (first_claimed (pos 9))
      (request "sub=1" (some (codes "PT1M"))) (ground arith) pull_point_in_use initial-IsWellFormed
      room (first_claim (pos 9)) refl (codes "PT1M") refl

unsubscribe-claim_slot_example :
    unsubscribe (request "sub=1" none) (some (first_claimed (pos 9)))
    ≡ pass (clear_slot 0 (first_claimed (pos 9)), served "events_service_files/Unsubscribe.xml" [])
unfolding subscription_address print
unsubscribe-claim_slot_example =
    unsubscribe-claim_slot device sub_pull (pos 9) none none initial 0 1 (first_claimed (pos 9))
      (request "sub=1" none) (ground arith) pull_point_in_use initial-IsWellFormed room
      (first_claim (pos 9)) refl

-- Slots with the last identifier and with the first.
abbrev last_and_first : Shm
last_and_first = record initial {
  subscriptions =
      set (set initial.subscriptions 0 (fill_slot sub_pull 65535 (pos 9) none none cleared)) 1
        (fill_slot sub_pull 1 (pos 9) none none cleared);
}

abbrev wrapped : Shm
wrapped = record last_and_first {
  subscriptions =
      set last_and_first.subscriptions 2 (fill_slot sub_pull 1 (pos 20) none none cleared);
}

wrapping_claim : claim_slot sub_pull (pos 20) none none last_and_first ≡ some (2, 1, wrapped)
unfolding claim_slot
wrapping_claim = refl

highest_is_last : max_id 0 last_and_first.subscriptions ≡ 65535
unfolding max_id fill_slot
highest_is_last = refl

-- A subscription with a waiting notification for each event.
abbrev pub notified : Shm
notified = force_notification device 0 (first_claimed (pos 9))

abbrev reused : Shm
reused = record (clear_slot 0 notified) {
  subscriptions =
      set (clear_slot 0 notified).subscriptions 0 (fill_slot sub_pull 1 (pos 20) none none cleared);
}

reusing_claim : claim_slot sub_pull (pos 20) none none (clear_slot 0 notified) ≡ some (0, 1, reused)
unfolding claim_slot force_notification update_slot
reusing_claim = refl

abbrev consumer : Bytes
consumer = codes "http://192.168.1.5/notify"

abbrev push_claimed : Shm
push_claimed = record initial {
  subscriptions = set initial.subscriptions 0 (
      fill_slot sub_push 1 (initial_termination_time (request "" (some consumer)) (some consumer))
        (some consumer) (some consumer) cleared);
}

push_claim :
    claim_slot sub_push
      (initial_termination_time (request "" (some consumer)) (some consumer))
      (some consumer)
      (some consumer)
      initial
    ≡ some (0, 1, push_claimed)
unfolding claim_slot
push_claim = refl

-- What the other processes do in a handler's pause: the cleaning.
abbrev cleaning : Shm → Shm
cleaning = clean_expired_subscriptions (λ i. pos 1000)

abbrev created : Shm
created = force_notification device 0 (cleaning (first_claimed (pos 1600)))

abbrev created_reply : Reply
created_reply = served "events_service_files/CreatePullPointSubscription.xml" (
    ("%ADDRESS%", text (subscription_address device 1))
    ∷ ("%CURRENT_TIME%", iso_date (pos 1000))
    ∷ ("%TERMINATION_TIME%", iso_date (pos 1600))
    ∷ [])

creation :
    handle create_pull_point_call device cleaning (request "" none) (some initial)
    ≡ pass (created, created_reply)
unfolding handle create_pull_point_subscription initial_termination_time claim_slot ◌+ℤ◌
creation = refl

handle-IsWellFormed_example : Reach (λ n. n) device initial created × IsWellFormed created
handle-IsWellFormed_example =
    handle-IsWellFormed (λ n. n) device create_pull_point_call cleaning (request "" none) initial
      created created_reply (λ s. next here (clean (λ i. pos 1000))) room creation
      initial-IsWellFormed

Reach-IsWellFormed_example : IsWellFormed (cleaning initial)
Reach-IsWellFormed_example =
    Reach-IsWellFormed (λ n. n) device initial-IsWellFormed (next here (clean (λ i. pos 1000)))
