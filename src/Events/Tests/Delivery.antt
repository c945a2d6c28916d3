-- ===== src/Events/Tests/Delivery.antt =====
-- Concrete runs of PullMessages, the notify server and the semaphore.
use thingino_onvif.Base.Int.{pos}
use thingino_onvif.Base.Mask.{test_bit}
use thingino_onvif.Base.{
  ℕ, true, ◌&&◌, ◌||◌, List, [], ◌∷◌, none, some, ◌≡◌, ◌≢◌, ◌↔◌, refl, arith, codes, get_elem?,
  take, drop, if◌then◌else◌,
}
use thingino_onvif.Events.Notify.Reporting.{is_told, pushes, emit_event-is_told}
use thingino_onvif.Events.Notify.{Fan, Change, Server, allowed, emit_event}
use thingino_onvif.Events.Pull.Arrival.{emit_event-pull_deliver}
use thingino_onvif.Events.Pull.Lease.{pull_expire-set_expire}
use thingino_onvif.Events.Pull.Passes.{
  all_waiting, pull_deliver-measured, pull_deliver-splits, pull_deliver-other,
}
use thingino_onvif.Events.Pull.Waiting.{Observation, here, there, Seen, wait_for_message-Seen}
use thingino_onvif.Events.Pull.{pull_expire, Notification, Session, wait_for_message, pull_deliver}
use thingino_onvif.Events.Semaphore.{
  Kernel, put, sem_memory_wait, both_open, reopened, fresh_kernel, sem_memory_wait-reopened,
}
use thingino_onvif.Events.Requests.Manage.{set_expire}
use thingino_onvif.Events.Slots.{fill_slot, update_slot}
use thingino_onvif.Events.State.{
  sub_pull, sub_push, Subscription, EventShm, cleared, silent, initial,
}
use thingino_onvif.Events.Tests.{motion, device, first_claimed, notified}
use thingino_onvif.Text.Topic.{is_topic_in_expression}

abbrev session : Session
session = record { sub_index = 0; limit = pos 1; timeout = pos 60; previous_expire_time = pos 9 }

pull_deliver-measured_example :
    (pull_deliver device session (pos 30) notified).measured
    ≡ (pull_deliver device session (pos 30) notified).sent
pull_deliver-measured_example = pull_deliver-measured device session (pos 30) notified

pull_deliver-splits_example :
    ((pull_deliver device session (pos 30) notified).sent
      ≡ take 1 (all_waiting 0 (pos 30) device.events notified.events))
    × (all_waiting 0
          (pos 30)
          device.events
          (pull_deliver device session (pos 30) notified).after.events
        ≡ drop 1 (all_waiting 0 (pos 30) device.events notified.events))
pull_deliver-splits_example = pull_deliver-splits device session (pos 30) notified

pull_deliver-other_example :
    (all_waiting 5
        (pos 40)
        device.events
        (pull_deliver device session (pos 30) notified).after.events
      ≡ all_waiting 5 (pos 40) device.events notified.events)
    × ((pull_deliver device session (pos 30) notified).after.subscriptions ≡ notified.subscriptions)
pull_deliver-other_example =
    pull_deliver-other device session (pos 30) notified 5 (pos 40) (λ e. absurd (omega arith))

-- A round that finds nothing, one that finds a message, and one behind the deadline.
abbrev rounds : List Observation
rounds = (pos 3, initial.events) ∷ (pos 4, notified.events) ∷ (pos 9, initial.events) ∷ []

wait_for_message-Seen_example :
    (wait_for_message (pos 5) 0 device.events rounds ≢ none)
    × ((wait_for_message (pos 5) 0 device.events rounds ≡ some true)
        ↔ Seen (pos 5) 0 device.events rounds)
wait_for_message-Seen_example =
    wait_for_message-Seen (pos 5) 0 device.events rounds (there (there (here refl)))

abbrev change : Change
change = record {
  index = 0;
  topic = some (codes "tns1:VideoSource/MotionAlarm");
  now = pos 5;
  value = true;
}

abbrev nothing_sent : Fan
nothing_sent = record { sub_count = 0; pull_notify = 0; sent = [] }

-- A push subscriber whose filter is another topic.
abbrev pushed : List Subscription
pushed =
    fill_slot sub_push 1 (pos 9) (some (codes "http://192.168.1.5/notify"))
      (some (codes "tns1:Device/Trigger/Relay")) cleared
    ∷ []

abbrev server : Server
server = record { shm = first_claimed (pos 9); last_emit_time = pos 0 ∷ pos 0 ∷ [] }

emit_event-is_told_example :
    (e' : EventShm) × (get_elem?
        (emit_event (λ n. n) device change (some true) server).0.shm.events
        0
      ≡ some e')
    × (e'.e_time ≡ pos 5)
    × (test_bit e'.pull_notify 0 ≡ (
        test_bit silent.pull_notify 0
        || (allowed (λ n. n) (pos 0) (pos 5) (pos 0)
            && is_told change
                (fill_slot sub_pull 1 (pos 9) none none cleared).used
                (fill_slot sub_pull 1 (pos 9) none none cleared))))
    × ((emit_event (λ n. n) device change (some true) server).1 ≡ (
        if allowed (λ n. n) (pos 0) (pos 5) (pos 0)
        then pushes change (first_claimed (pos 9)).subscriptions
        else []))
emit_event-is_told_example =
    emit_event-is_told (λ n. n) device change (some true) server silent (pos 0) 0
      (fill_slot sub_pull 1 (pos 9) none none cleared) refl refl refl

abbrev locked : Kernel
locked = record (both_open (fresh_kernel (λ n. 0) 5)).2 {
  value = put (both_open (fresh_kernel (λ n. 0) 5)).2.value 5 0;
}

sem_memory_wait-reopened_example :
    ((reopened (fresh_kernel (λ n. 0) 5)).0 ≢ (reopened (fresh_kernel (λ n. 0) 5)).1)
    × ((k : Kernel) × (k' : Kernel) × (sem_memory_wait
            (some (reopened (fresh_kernel (λ n. 0) 5)).0)
            (reopened (fresh_kernel (λ n. 0) 5)).2
          ≡ some (pos 0, k))
        × (sem_memory_wait (some (reopened (fresh_kernel (λ n. 0) 5)).1) k ≡ some (pos 0, k')))
sem_memory_wait-reopened_example = sem_memory_wait-reopened (λ n. 0) 5

abbrev ten_messages : Session
ten_messages = record session { limit = pos 10 }

allowed_at_once : allowed (λ n. n) (pos 0) (pos 5) (pos 0) ≡ true
unfolding allowed
allowed_at_once = refl

first_is_told :
    is_told change
      (fill_slot sub_pull 1 (pos 9) none none cleared).used
      (fill_slot sub_pull 1 (pos 9) none none cleared)
    ≡ true
unfolding is_told fill_slot is_topic_in_expression
first_is_told = refl

emit_event-pull_deliver_example :
    (n : Notification) × (k : ℕ) × (get_elem?
        (pull_deliver device ten_messages
          (pos 7)
          (emit_event (λ n. n) device change (some true) server).0.shm).sent
        k
      ≡ some n)
    × (n.topic ≡ codes "tns1:VideoSource/MotionAlarm")
emit_event-pull_deliver_example =
    emit_event-pull_deliver (λ n. n) device change (some true) server ten_messages (pos 7) silent
      (pos 0) (fill_slot sub_pull 1 (pos 9) none none cleared) motion
      (codes "tns1:VideoSource/MotionAlarm") refl refl refl refl refl allowed_at_once first_is_told
      (omega arith)

pull_expire-set_expire_example :
    pull_expire session (pos 30) (record notified {
      subscriptions = update_slot 0 (set_expire (pos 5000)) notified.subscriptions;
    })
    ≡ pull_expire session (pos 30) notified
pull_expire-set_expire_example = pull_expire-set_expire session (pos 30) (pos 5000) notified
