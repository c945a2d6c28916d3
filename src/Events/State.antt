-- ===== src/Events/State.antt =====
-- The shared memory of src/utils.h, the configuration that the events code reads, and what a
-- request handler is given and answers.
use thingino_onvif.Base.Int.{ℤ, pos}
use thingino_onvif.Base.{ℕ, Bool, false, List, [], Option, String, Bytes, replicate}

abbrev pub max_subscriptions : ℕ
max_subscriptions = 32

abbrev pub max_events : ℕ
max_events = 8

pub data SubscriptionType : Type 0 where
  sub_unused sub_pull sub_push : SubscriptionType

-- `subscription_shm_t`. Identifiers are never negative; the text buffers hold their text without
-- the final zero byte.
pub record Subscription : Type 0 where
  pub id : ℕ
  pub reference : Bytes
  pub used : SubscriptionType
  pub expire : ℤ
  pub push_need_sync : Bool
  pub topic_expression : Bytes

-- `event_shm_t`, with its two 32-bit masks of slots.
pub record EventShm : Type 0 where
  pub e_time : ℤ
  pub is_on : Bool
  pub pull_send_initialized : ℕ
  pub pull_notify : ℕ

pub record Shm : Type 0 where
  pub subscriptions : List Subscription
  pub events : List EventShm

-- A text that is a null pointer is empty here: the code treats both alike.
pub record EventSource : Type 0 where
  pub name : Bytes
  pub type : Bytes
  pub value : Bytes

-- `event_t`: a topic may be a null pointer.
pub record EventConf : Type 0 where
  pub topic : Option Bytes
  pub sources : List EventSource
  pub input_file : Bytes

-- The part of `service_ctx` that the events code reads, with the address of the network interface.
pub record ServiceContext : Type 0 where
  pub port : ℕ
  pub my_address : Bytes
  pub events : List EventConf
  pub events_enable : ℕ
  pub events_min_interval_ms : ℤ

-- A request: the query string, the text of an element below the header or the body, the time at
-- which it is handled, and the reading of an ISO date.
pub record Request : Type 0 where
  pub query_string : Option Bytes
  pub header : String → Option Bytes
  pub body : String → Option Bytes
  pub now : ℤ
  pub from_iso_date : Bytes → ℤ

pub data Fault : Type 0 where
  send_fault : (subcode reason detail : String) → Fault
  send_action_failed_fault : ℕ → Fault

-- What a template parameter is replaced by: a text, a time in ISO form, or a new random UUID.
pub data Parameter : Type 0 where
  text : Bytes → Parameter
  iso_date : ℤ → Parameter
  new_uuid : Parameter

-- A handler answers with a template and its parameters, or returns a negative code after a fault.
pub data Reply : Type 0 where
  served : (template : String) → List (String × Parameter) → Reply
  refused : (code : ℕ) → Fault → Reply

abbrev pub resource_unknown : String → Fault
resource_unknown detail = send_fault "wsrf-rw:ResourceUnknownFault" "Resource unknown" detail

-- `memset(…, '\0', sizeof(subscription_shm_t))`
abbrev pub cleared : Subscription
cleared = record {
  id = 0;
  reference = [];
  used = sub_unused;
  expire = pos 0;
  push_need_sync = false;
  topic_expression = [];
}

abbrev pub silent : EventShm
silent = record { e_time = pos 0; is_on = false; pull_send_initialized = 0; pull_notify = 0 }

-- The shared memory as the notify server leaves it when it starts.
abbrev pub initial : Shm
initial = record {
  subscriptions = replicate max_subscriptions cleared;
  events = replicate max_events silent;
}
