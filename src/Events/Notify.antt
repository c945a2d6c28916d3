-- ===== src/Events/Notify.antt =====
-- The notify server, src/onvif_notify_server.c: what a change of an input file does to the shared
-- memory, and which messages go out. `send_notify` itself is network input and output: a message
-- is a value here. `long_of` reduces a number to the width of the platform's `long`.
pub mod Reporting
pub mod Cleaning
pub mod Consumer
use thingino_onvif.Base.Int.{ℤ, pos, ◌-ℤ◌, ◌*ℤ◌, ltb_ℤ}
use thingino_onvif.Base.Mask.{set_bit}
use thingino_onvif.Base.{
  ℕ, zero, suc, ◌+◌, Bool, true, false, ◌&&◌, ◌||◌, not, List, [], ◌∷◌, ◌++◌, Option, none, some,
  ◌==◌, leb, if◌then◌else◌, Bytes, String, codes, equal, length, set, get_elem?,
}
use thingino_onvif.Events.State.{
  SubscriptionType, sub_unused, sub_pull, sub_push, Subscription, EventShm, Shm, EventConf,
  ServiceContext, cleared,
}
use thingino_onvif.Text.Topic.{is_topic_in_expression}

-- One call of `send_notify`.
pub record Message : Type 0 where
  pub reference : Bytes
  pub alarm_index : ℕ
  pub e_time : ℤ
  pub property : String
  pub value : Bool

-- What the loop over the subscriptions has gathered.
pub record Fan : Type 0 where
  pub sub_count : ℕ
  pub pull_notify : ℕ
  pub sent : List Message

pub record Change : Type 0 where
  pub index : ℕ
  pub topic : Option Bytes
  pub now : ℤ
  pub value : Bool

-- `now > expire`
abbrev pub expired : ℤ → Subscription → Bool
expired now s = ltb_ℤ s.expire now

abbrev pub changed_message : Change → Subscription → Message
changed_message ch s = record {
  reference = s.reference;
  alarm_index = ch.index;
  e_time = ch.now;
  property = "Changed";
  value = ch.value;
}

-- One round of the loop: a pull point gets its bit set, a push subscriber a message.
unfoldable pub offer_to : SubscriptionType → Change → Subscription → ℕ → Fan → Fan
offer_to sub_unused ch s j fan = fan
offer_to sub_pull ch s j fan =
    if expired ch.now s
    then fan
    else if is_topic_in_expression (some s.topic_expression) ch.topic
    then record fan { sub_count = fan.sub_count + 1; pull_notify = set_bit fan.pull_notify j }
    else fan
offer_to sub_push ch s j fan =
    if expired ch.now s
    then fan
    else record fan { sub_count = fan.sub_count + 1; sent = fan.sent ++ changed_message ch s ∷ [] }

unfoldable pub fan_out : Change → ℕ → List Subscription → Fan → Fan
unfolding offer_to
fan_out ch j [] fan = fan
fan_out ch j (s ∷ subs) fan = fan_out ch (j + 1) subs (offer_to s.used ch s j fan)

-- The server's state: the shared memory, and the time of each event's last notification.
pub record Server : Type 0 where
  pub shm : Shm
  pub last_emit_time : List ℤ

module _ (long_of : ℤ → ℤ) where
  -- The debounce: with an interval set, an event that follows too soon is not reported.
  unfoldable pub allowed : ℤ → ℤ → ℤ → Bool
  allowed min_interval now last =
      if ltb_ℤ (pos 0) min_interval
      then not (ltb_ℤ (long_of (long_of (now -ℤ last) *ℤ pos 1000)) min_interval)
      else true

  abbrev pub changed_event : ℤ → Option Bool → EventShm → EventShm
  changed_event now none e = record e { e_time = now }
  changed_event now (some on) e = record e { e_time = now; is_on = on }

  -- What is written and sent once the debounce is decided; `e` is the event's record, and the last
  -- emission is noted only if there is an interval.
  unfoldable pub report_if :
      Bool → ServiceContext → Change → Option Bool → EventShm → Server → Server × List Message
  unfolding fan_out
  report_if true ctx ch on e server =
      let fan =
        fan_out ch 0 server.shm.subscriptions
          (record { sub_count = 0; pull_notify = e.pull_notify; sent = [] }) in
      (
        record {
          shm = record server.shm {
            events =
                set server.shm.events ch.index
                  (record (changed_event ch.now on e) { pull_notify = fan.pull_notify });
          };
          last_emit_time =
              if ltb_ℤ (pos 0) ctx.events_min_interval_ms
              then set server.last_emit_time ch.index ch.now
              else server.last_emit_time;
        },
        fan.sent,
      )
  report_if false ctx ch on e server = (
    record server {
      shm = record server.shm {
        events = set server.shm.events ch.index (changed_event ch.now on e);
      };
    },
    [],
  )

  -- The locked part of both loops; `on` is the new alarm state if there is one.
  unfoldable pub report :
      ServiceContext → Change → Option Bool → EventShm → ℤ → Server → Server × List Message
  unfolding allowed report_if
  report ctx ch on e last server =
      report_if (allowed ctx.events_min_interval_ms ch.now last) ctx ch on e server

  -- `report` at the event's own records; the configuration has at most as many events as the
  -- memory has records, so both are there.
  unfoldable pub emit_event : ServiceContext → Change → Option Bool → Server → Server × List Message
  unfolding report
  emit_event ctx ch on server = elim (get_elem? server.shm.events ch.index) [
    | none ↦ (server, [])
    | some e ↦ elim (get_elem? server.last_emit_time ch.index) [
      | none ↦ (server, [])
      | some last ↦ report ctx ch on e last server
    ]
  ]

  -- The events whose input file is the one that changed. Each reads the clock again.
  unfoldable pub emit_matching :
      ServiceContext
      → (ℕ → ℤ)
      → Bytes
      → Bool
      → Option Bool
      → ℕ
      → List EventConf
      → Server
      → Server × List Message
  unfolding emit_event equal
  emit_matching ctx clock input_file value on i [] server = (server, [])
  emit_matching ctx clock input_file value on i (ev ∷ evs) server =
      let ch : Change = record { index = i; topic = ev.topic; now = clock i; value = value } in
      let (server', sent) =
        if equal ev.input_file input_file then emit_event ctx ch on server else (server, []) in
      let (final, later) = emit_matching ctx clock input_file value on (i + 1) evs server' in
      (final, sent ++ later)

  pub record InotifyEvent : Type 0 where
    pub created : Bool
    pub deleted : Bool
    pub modified : Bool
    pub is_dir : Bool
    pub name : Bytes

  abbrev has_name : Bytes → Bool
  has_name [] = false
  has_name (c ∷ name) = true

  abbrev new_state : InotifyEvent → Option Bool
  new_state ev = if ev.created then some true else if ev.deleted then some false else none

  -- One record of the inotify buffer. `exists` says which files are there.
  unfoldable pub handle_inotify_event :
      ServiceContext
      → (ℕ → ℤ)
      → (Bytes → Bool)
      → Bytes
      → InotifyEvent
      → Server
      → Server × List Message
  unfolding emit_matching
  handle_inotify_event ctx clock exists dir ev server =
      let input_file = dir ++ b'/' ∷ ev.name in
      let value = if ev.created then true else if ev.deleted then false else exists input_file in
      if (ev.created || ev.deleted || ev.modified) && not ev.is_dir && has_name ev.name
      then if leb 1024 (length input_file)
        then (server, [])
        else emit_matching ctx clock input_file value (new_state ev) 0 ctx.events server
      else (server, [])

  -- One event in the loop that polls where there is no inotify.
  unfoldable pub poll_event :
      ServiceContext
      → ℤ
      → (Bytes → Bool)
      → ℕ
      → EventConf
      → EventShm
      → Server
      → Server × List Message
  unfolding emit_event
  poll_event ctx now exists i ev e server =
      let there = exists ev.input_file in
      let ch : Change = record { index = i; topic = ev.topic; now = now; value = there } in
      if not e.is_on && there
      then emit_event ctx ch (some true) server
      else if e.is_on && not there
      then emit_event ctx ch (some false) server
      else (server, [])
