-- ===== src/Events/Requests/Corners.antt =====
-- What the handlers of src/events_service.c do at their edges: the end of the identifiers, a
-- termination time of 0, a slot that is used again, and checks that come late or are too narrow.
use thingino_onvif.Base.Int.{ℤ, pos}
use thingino_onvif.Base.{
  ℕ, ◌≤◌, ◌<◌, false, List, ◌++◌, Option, none, some, ◌≡◌, ◌≢◌, refl, sym, ap, ◌∙◌, arith, Bytes,
  codes, get_elem?, get_elem?-set_ne, get_elem?-set_self, get_elem?-lt_length,
}
use thingino_onvif.Events.Notify.Cleaning.{clean_slot, clean_expired_subscriptions, clean_slots-get}
use thingino_onvif.Events.Pull.Passes.{all_waiting}
use thingino_onvif.Events.Requests.Manage.{in_range, clear_slot, set_need_sync, subscribe}
use thingino_onvif.Events.Requests.Sync.{set_synchronization_point}
use thingino_onvif.Events.Requests.{pass, stop, initial_termination_time, topic_filter}
use thingino_onvif.Events.Slots.Claim.{claim_slot-Claimed}
use thingino_onvif.Events.Slots.{is_unused, max_id, next_id, fill_slot, claim_slot, update_slot}
use thingino_onvif.Events.State.{
  SubscriptionType, sub_push, Subscription, Shm, EventConf, ServiceContext, Request,
  send_action_failed_fault, refused, resource_unknown,
}
use thingino_onvif.Text.Decimal.RoundTrip.{print-IsDigit, print-ne-nil, atoi-print}
use thingino_onvif.Text.Decimal.{print}
use thingino_onvif.Text.Query.Parameter.{get_from_query_string_digits}

module _ (kind : SubscriptionType) (expire : ℤ) (address te : Option Bytes) (shm : Shm) (i id : ℕ)
    (m : Shm) (claimed : claim_slot kind expire address te shm ≡ some (i, id, m)) where
  slot_taken :
      (free : Subscription) × (get_elem? m.subscriptions i
        ≡ some (fill_slot kind id expire address te free))
  slot_taken =
      let c = claim_slot-Claimed kind expire address te shm i id m claimed in
      (
        c.free,
        rw (c.after, c.id_is)
            (get_elem?-set_self shm.subscriptions i _
              (get_elem?-lt_length shm.subscriptions i c.was)),
      )

  -- When a slot has the identifier 65535, the next subscription gets the identifier 1, and a slot
  -- that has this identifier already keeps it, so that two slots share it.
  pub claim_slot_wraps :
      (k : ℕ) (s : Subscription)
      → max_id 0 shm.subscriptions ≡ 65535
      → get_elem? shm.subscriptions k ≡ some s
      → k ≢ i
      → s.id ≡ 1
      → (t : Subscription) × (get_elem? m.subscriptions i ≡ some t)
        × (get_elem? m.subscriptions k ≡ some s)
        × (t.id ≡ id)
        × (s.id ≡ id)
  unfolding next_id fill_slot
  claim_slot_wraps k s full g ne one =
      let c = claim_slot-Claimed kind expire address te shm i id m claimed in
      let (free, here) = slot_taken in
      let first : id ≡ 1 = rw full at c.id_is in
      (
        fill_slot kind id expire address te free,
        here,
        rw c.after (get_elem?-set_ne shm.subscriptions i k _ (λ e. ne (sym e)) ∙ g),
        refl,
        one ∙ sym first,
      )

  -- A new subscription, of a kind that is in use, whose termination time is 0, the time that `from_iso_date` gives for a text it
  -- cannot read, is never freed by the cleaning, whenever that runs.
  pub claim_slot_zero_expire :
      (clock : ℕ → ℤ)
      → is_unused kind ≡ false
      → expire ≡ pos 0
      → (s : Subscription) × (get_elem? (clean_expired_subscriptions clock m).subscriptions i
          ≡ some s)
        × (is_unused s.used ≡ false)
        × (s.id ≡ id)
  unfolding clean_expired_subscriptions clean_slot fill_slot
  claim_slot_zero_expire clock used z =
      let (free, here) = slot_taken in
      let t = fill_slot kind id expire address te free in
      (t, clean_slots-get clock 0 i m.subscriptions t here ∙ rw (z, clean_slot) refl, used, refl)

-- A subscription in a slot that Unsubscribe has freed finds every notification of the old one that
-- was not fetched, whatever its own filter is.
pub claim_slot-clear_slot :
    (evs : List EventConf) (now : ℤ) (kind : SubscriptionType) (expire : ℤ)
    (address te : Option Bytes) (shm : Shm) (i id : ℕ) (m : Shm)
    → claim_slot kind expire address te (clear_slot i shm) ≡ some (i, id, m)
    → all_waiting i now evs m.events ≡ all_waiting i now evs shm.events
claim_slot-clear_slot evs now kind expire address te shm i id m h =
    let c = claim_slot-Claimed kind expire address te (clear_slot i shm) i id m h in
    ap (all_waiting i now evs) c.events_kept

-- A Subscribe request without a MessageID, which has all else and finds a free slot, is answered
-- with a fault, and the slot stays taken.
pub subscribe_without_message_id :
    (ctx : ServiceContext) (other : Shm → Shm) (req : Request) (shm : Shm) (address : Bytes)
    (i id : ℕ) (m : Shm)
    → req.header "MessageID" ≡ none
    → req.body "Address" ≡ some address
    → claim_slot sub_push
        (initial_termination_time req (req.body "InitialTerminationTime"))
        (some address)
        (topic_filter req (req.body "Filter"))
        shm
      ≡ some (i, id, m)
    → subscribe ctx other req (some shm)
      ≡ pass (
        record (other m) { subscriptions = update_slot i set_need_sync (other m).subscriptions },
        refused 6 (send_action_failed_fault 6),
      )
unfolding subscribe
subscribe_without_message_id ctx other req shm address i id m h a c = rw (a, c, h)

beyond_slots : (id : ℕ) → 32 < id → in_range 32 (pos id) ≡ none
unfolding in_range
beyond_slots id h = ground arith

-- SetSynchronizationPoint refuses every identifier above 32, the number of slots, although
-- identifiers go up to 65535.
pub set_synchronization_point_above_slots :
    (ctx : ServiceContext) (req : Request) (memory : Option Shm) (id : ℕ)
    → 32 < id
    → id ≤ 65535
    → req.query_string ≡ some (codes "sub=" ++ print id)
    → set_synchronization_point ctx req memory ≡ stop 2 (resource_unknown "")
unfolding set_synchronization_point
set_synchronization_point_above_slots ctx req memory id low high q = rw (
  q,
  get_from_query_string_digits (print id) (print-ne-nil id) (print-IsDigit id),
  atoi-print id (omega arith),
  beyond_slots id low,
)
