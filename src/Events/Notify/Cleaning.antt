-- ===== src/Events/Notify/Cleaning.antt =====
-- The thread of src/onvif_notify_server.c that synchronises push subscribers and frees the slots of
-- expired subscriptions. Each definition is one locked part; logging is left out.
use thingino_onvif.Base.Int.{ℤ, is_zero_ℤ}
use thingino_onvif.Base.{
  ℕ, zero, suc, ◌+◌, Bool, false, ◌&&◌, not, List, [], ◌∷◌, ◌++◌, none, some, ◌≡◌, inl, inr, refl,
  arith, if◌then◌else◌, Bytes, get_elem?, Bool-cases,
}
use thingino_onvif.Events.Notify.{Message, expired}
use thingino_onvif.Events.Slots.Kept.{Kept, IsWellFormed-Kept}
use thingino_onvif.Events.Slots.Ids.{IsWellFormed}
use thingino_onvif.Events.Slots.{update_slot}
use thingino_onvif.Events.State.{
  SubscriptionType, sub_unused, sub_pull, sub_push, Subscription, Shm, EventConf, ServiceContext,
  cleared,
}
use thingino_onvif.Text.Topic.{is_topic_in_expression}

abbrev initialized_message : ℕ → ℤ → Bool → Subscription → Message
initialized_message i now value s = record {
  reference = s.reference;
  alarm_index = i;
  e_time = now;
  property = "Initialized";
  value = value;
}

-- What is sent for one event: only a push subscriber that has not expired gets a message.
unfoldable pub sync_event : SubscriptionType → ℕ → ℤ → Bool → Subscription → List Message
sync_event sub_push i now value s =
    if expired now s then [] else initialized_message i now value s ∷ []
sync_event sub_pull i now value s = []
sync_event sub_unused i now value s = []

-- `sync_events`: the present state of each event that the filter lets through.
unfoldable pub sync_events :
    (ℕ → ℤ) → (Bytes → Bool) → Subscription → ℕ → List EventConf → List Message
unfolding sync_event
sync_events clock exists s i [] = []
sync_events clock exists s i (ev ∷ evs) =
    (if is_topic_in_expression (some s.topic_expression) ev.topic
      then sync_event s.used i (clock i) (exists ev.input_file) s
      else [])
    ++ sync_events clock exists s (i + 1) evs

abbrev pub reset_need_sync : Subscription → Subscription
reset_need_sync s = record s { push_need_sync = false }

abbrev synchronise :
    ServiceContext → (ℕ → ℤ) → (Bytes → Bool) → ℕ → Shm → Subscription → Shm × List Message
synchronise ctx clock exists j shm s =
    if s.push_need_sync
    then (
      record shm { subscriptions = update_slot j reset_need_sync shm.subscriptions },
      sync_events clock exists s 0 ctx.events,
    )
    else (shm, [])

-- One round of the thread's loop over the slots.
unfoldable pub sync_slot : ServiceContext → (ℕ → ℤ) → (Bytes → Bool) → ℕ → Shm → Shm × List Message
unfolding sync_events
sync_slot ctx clock exists j shm = elim (get_elem? shm.subscriptions j) [
  | none ↦ (shm, [])
  | some s ↦ synchronise ctx clock exists j shm s
]

-- A slot is freed if it has an expiry other than 0, and that has passed.
unfoldable pub clean_slot : ℤ → Subscription → Subscription
clean_slot now s = if not (is_zero_ℤ s.expire) && expired now s then cleared else s

unfoldable pub clean_slots : (ℕ → ℤ) → ℕ → List Subscription → List Subscription
unfolding clean_slot
clean_slots clock i [] = []
clean_slots clock i (s ∷ subs) = clean_slot (clock i) s ∷ clean_slots clock (i + 1) subs

unfoldable pub clean_expired_subscriptions : (ℕ → ℤ) → Shm → Shm
unfolding clean_slots
clean_expired_subscriptions clock shm = record shm {
  subscriptions = clean_slots clock 0 shm.subscriptions;
}

clean_slots-Kept :
    (clock : ℕ → ℤ) (i : ℕ) (subs : List Subscription) → Kept subs (clean_slots clock i subs)
unfolding clean_slots
clean_slots-Kept clock i [] = tt
clean_slots-Kept clock i (s ∷ subs) = (
  elim (Bool-cases (not (is_zero_ℤ s.expire) && expired (clock i) s)) [
    | inl gone ↦ rw gone (inr (refl, refl))
    | inr stays ↦ rw stays (inl (refl, refl))
  ],
  clean_slots-Kept clock (i + 1) subs,
)

pub clean_expired_subscriptions-IsWellFormed :
    (clock : ℕ → ℤ) (shm : Shm)
    → IsWellFormed shm
    → IsWellFormed (clean_expired_subscriptions clock shm)
unfolding clean_expired_subscriptions
clean_expired_subscriptions-IsWellFormed clock shm w =
    IsWellFormed-Kept shm (clean_expired_subscriptions clock shm) w
      (clean_slots-Kept clock 0 shm.subscriptions) refl

-- What the cleaning leaves in slot `k`.
pub clean_slots-get :
    (clock : ℕ → ℤ) (i k : ℕ) (subs : List Subscription) (s : Subscription)
    → get_elem? subs k ≡ some s
    → get_elem? (clean_slots clock i subs) k ≡ some (clean_slot (clock (i + k)) s)
unfolding clean_slots
clean_slots-get clock i k [] s g = cc
clean_slots-get clock i zero (x ∷ subs) s g =
    let here : i + 0 ≡ i = omega arith in rw here (ground arith)
clean_slots-get clock i (suc k) (x ∷ subs) s g =
    let there : i + suc k ≡ i + 1 + k = omega arith in
    rw there (clean_slots-get clock (i + 1) k subs s g)
