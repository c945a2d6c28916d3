-- ===== src/Events/Notify/Reporting.antt =====
-- Who is told of an event.
use thingino_onvif.Base.Int.{ℤ}
use thingino_onvif.Base.Mask.{test_bit, test_bit-set_bit_self, test_bit-set_bit_ne}
use thingino_onvif.Base.{
  ℕ, zero, suc, ◌+◌, ◌<◌, Bool, true, false, ◌&&◌, ◌||◌, not, List, [], ◌∷◌, ◌++◌, Option, none,
  some, ◌≡◌, refl, sym, ap, ◌∙◌, arith, if◌then◌else◌, append_assoc, append-nil, get_elem?,
  get_elem?-set_self, get_elem?-lt_length, zero-add, ◌≢◌, Bool-cases, inl, inr,
}
use thingino_onvif.Events.Notify.{
  Message, Fan, Change, expired, changed_message, offer_to, fan_out, Server, allowed, report_if,
  report, changed_event, emit_event,
}
use thingino_onvif.Events.State.{
  SubscriptionType, sub_unused, sub_pull, sub_push, Subscription, EventShm, ServiceContext,
}
use thingino_onvif.Text.Topic.{is_topic_in_expression}

-- A pull point that is to be told: it has not expired, and its filter lets the topic through.
unfoldable pub is_told : Change → SubscriptionType → Subscription → Bool
is_told ch sub_pull s =
    not (expired ch.now s) && is_topic_in_expression (some s.topic_expression) ch.topic
is_told ch sub_unused s = false
is_told ch sub_push s = false

-- The push subscribers that are sent a message, in the order of their slots.
unfoldable pub is_pushed : Change → SubscriptionType → Subscription → Bool
is_pushed ch sub_push s = not (expired ch.now s)
is_pushed ch sub_unused s = false
is_pushed ch sub_pull s = false

unfoldable pub pushes : Change → List Subscription → List Message
unfolding is_pushed
pushes ch [] = []
pushes ch (s ∷ subs) =
    if is_pushed ch s.used s then changed_message ch s ∷ pushes ch subs else pushes ch subs

offer_to_self :
    (ch : Change) (u : SubscriptionType) (s : Subscription) (j : ℕ) (fan : Fan)
    → test_bit (offer_to u ch s j fan).pull_notify j
      ≡ (test_bit fan.pull_notify j || is_told ch u s)
unfolding offer_to is_told
offer_to_self ch sub_unused s j fan = ground arith
offer_to_self ch sub_pull s j fan = ground (arith, test_bit-set_bit_self fan.pull_notify j)
offer_to_self ch sub_push s j fan = ground arith

offer_to-ne :
    (ch : Change) (u : SubscriptionType) (s : Subscription) (j k : ℕ) (fan : Fan)
    → j ≢ k
    → test_bit (offer_to u ch s j fan).pull_notify k ≡ test_bit fan.pull_notify k
unfolding offer_to
offer_to-ne ch sub_unused s j k fan h = refl
offer_to-ne ch sub_pull s j k fan h = ground (arith, test_bit-set_bit_ne fan.pull_notify j k h)
offer_to-ne ch sub_push s j k fan h = ground arith

fan_out_before :
    (ch : Change) (j k : ℕ) (subs : List Subscription) (fan : Fan)
    → k < j
    → test_bit (fan_out ch j subs fan).pull_notify k ≡ test_bit fan.pull_notify k
unfolding fan_out
fan_out_before ch j k [] fan h = refl
fan_out_before ch j k (s ∷ subs) fan h =
    fan_out_before ch (j + 1) k subs (offer_to s.used ch s j fan) (omega arith)
    ∙ offer_to-ne ch s.used s j k fan (omega arith)

-- After the loop, the bit of a slot is set if it was set before, or if the slot is to be told.
pub fan_out-is_told :
    (ch : Change) (j k : ℕ) (subs : List Subscription) (s : Subscription) (fan : Fan)
    → get_elem? subs k ≡ some s
    → test_bit (fan_out ch j subs fan).pull_notify (j + k)
      ≡ (test_bit fan.pull_notify (j + k) || is_told ch s.used s)
unfolding fan_out
fan_out-is_told ch j k [] s fan g = cc
fan_out-is_told ch j zero (x ∷ subs) s fan g =
    let same : x ≡ s = ground arith in
    let here : j + 0 ≡ j = omega arith in
    rw (here, ← same)
      (fan_out_before ch (j + 1) j subs (offer_to x.used ch x j fan) (omega arith)
        ∙ offer_to_self ch x.used x j fan)
fan_out-is_told ch j (suc k) (x ∷ subs) s fan g =
    let there : j + suc k ≡ j + 1 + k = omega arith in
    rw there (
      fan_out-is_told ch (j + 1) k subs s (offer_to x.used ch x j fan) g
      ∙ ap (λ b. b || is_told ch s.used s)
          (offer_to-ne ch x.used x j (j + 1 + k) fan (omega arith)))

offer_to-sent :
    (ch : Change) (s : Subscription) (j : ℕ) (fan : Fan) (u : SubscriptionType)
    → (offer_to u ch s j fan).sent
      ≡ fan.sent ++ (if is_pushed ch u s then changed_message ch s ∷ [] else [])
unfolding offer_to is_pushed
offer_to-sent ch s j fan sub_unused = sym (append-nil fan.sent)
offer_to-sent ch s j fan sub_pull = ground (arith, append-nil fan.sent)
offer_to-sent ch s j fan sub_push = ground (arith, append-nil fan.sent)

-- The messages of the loop are those to the push subscribers. Their filters are not looked at.
pub fan_out-pushes :
    (ch : Change) (j : ℕ) (subs : List Subscription) (fan : Fan)
    → (fan_out ch j subs fan).sent ≡ fan.sent ++ pushes ch subs
unfolding fan_out pushes
fan_out-pushes ch j [] fan = sym (append-nil fan.sent)
fan_out-pushes ch j (s ∷ subs) fan =
    fan_out-pushes ch (j + 1) subs (offer_to s.used ch s j fan)
    ∙ elim (Bool-cases (is_pushed ch s.used s)) [
      | inl b ↦ rw (offer_to-sent ch s j fan s.used, b) (append_assoc fan.sent _ _)
      | inr b ↦ rw (offer_to-sent ch s j fan s.used, b) (append_assoc fan.sent _ _)
    ]

module _ (long_of : ℤ → ℤ) (ctx : ServiceContext) (ch : Change) (on : Option Bool)
    (server : Server) where
  time_set : (e : EventShm) → (changed_event long_of ch.now on e).e_time ≡ ch.now
  time_set e = by_state on
    where
      by_state : (o : Option Bool) → (changed_event long_of ch.now o e).e_time ≡ ch.now
      by_state none = refl
      by_state (some b) = refl

  bits_kept : (e : EventShm) → (changed_event long_of ch.now on e).pull_notify ≡ e.pull_notify
  bits_kept e = by_state on
    where
      by_state : (o : Option Bool) → (changed_event long_of ch.now o e).pull_notify ≡ e.pull_notify
      by_state none = refl
      by_state (some b) = refl

  report_if-is_told :
      (b : Bool) (e old : EventShm) (k : ℕ) (s : Subscription)
      → get_elem? server.shm.events ch.index ≡ some old
      → get_elem? server.shm.subscriptions k ≡ some s
      → (e' : EventShm) × (get_elem? (report_if long_of b ctx ch on e server).0.shm.events ch.index
          ≡ some e')
        × (e'.e_time ≡ ch.now)
        × (test_bit e'.pull_notify k ≡ (test_bit e.pull_notify k || (b && is_told ch s.used s)))
        × ((report_if long_of b ctx ch on e server).1
            ≡ (if b then pushes ch server.shm.subscriptions else []))
  unfolding report_if
  report_if-is_told true e old k s here there =
      let start : Fan = record { sub_count = 0; pull_notify = e.pull_notify; sent = [] } in
      (
        _,
        get_elem?-set_self server.shm.events ch.index _
            (get_elem?-lt_length server.shm.events ch.index here),
        time_set e,
        rw zero-add at (fan_out-is_told ch 0 k server.shm.subscriptions s start there),
        fan_out-pushes ch 0 server.shm.subscriptions start,
      )
  report_if-is_told false e old k s here there = (
    _,
    get_elem?-set_self server.shm.events ch.index _
        (get_elem?-lt_length server.shm.events ch.index here),
    time_set e,
    rw (bits_kept e) (ground arith),
    refl,
  )

  -- When an event changes, its time is noted; unless it follows its last notification too soon, each
  -- pull point whose filter lets its topic through gets its bit set, if it has not expired, no other
  -- bit changes, and a message goes to the push subscribers that have not expired. An event that
  -- follows too soon changes no bit and sends nothing.
  pub emit_event-is_told :
      (e : EventShm) (last : ℤ) (k : ℕ) (s : Subscription)
      → get_elem? server.shm.events ch.index ≡ some e
      → get_elem? server.last_emit_time ch.index ≡ some last
      → get_elem? server.shm.subscriptions k ≡ some s
      → (e' : EventShm) × (get_elem? (emit_event long_of ctx ch on server).0.shm.events ch.index
          ≡ some e')
        × (e'.e_time ≡ ch.now)
        × (test_bit e'.pull_notify k ≡ (
            test_bit e.pull_notify k
            || (allowed long_of ctx.events_min_interval_ms ch.now last && is_told ch s.used s)))
        × ((emit_event long_of ctx ch on server).1 ≡ (
            if allowed long_of ctx.events_min_interval_ms ch.now last
            then pushes ch server.shm.subscriptions
            else []))
  unfolding emit_event report
  emit_event-is_told e last k s here emitted there =
      rw (here, emitted, emit_event)
        (report_if-is_told (allowed long_of ctx.events_min_interval_ms ch.now last) e e k s here
          there)
