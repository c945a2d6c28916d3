-- ===== src/Events/Pull/Arrival.antt =====
-- From a change of an event to its delivery: the notify server's side and PullMessages together.
use thingino_onvif.Base.Int.{ℤ, pos_part}
use thingino_onvif.Base.Mask.{test_bit}
use thingino_onvif.Base.{
  ℕ, zero, suc, ◌≤◌, Bool, true, List, [], ◌∷◌, Option, some, ◌≡◌, inl, inr, refl, ap, ◌∙◌, arith,
  Bytes, get_elem?, length, take, Option-cases,
}
use thingino_onvif.Events.Notify.Reporting.{is_told, emit_event-is_told}
use thingino_onvif.Events.Notify.{Change, Server, allowed, emit_event}
use thingino_onvif.Events.Pull.Passes.{all_waiting, pull_deliver-splits}
use thingino_onvif.Events.Pull.{Session, Notification, notification, waiting, pull_deliver}
use thingino_onvif.Events.State.{Subscription, EventShm, EventConf, ServiceContext}

take_all : (n : ℕ) (xs : List Notification) → length xs ≤ n → take n xs ≡ xs
take_all zero [] h = refl
take_all zero (x ∷ xs) h = absurd (omega arith)
take_all (suc n) [] h = refl
take_all (suc n) (x ∷ xs) h = ap (◌∷◌ x) (take_all n xs (omega arith))

length-all_waiting :
    (j : ℕ) (now : ℤ) (evs : List EventConf) (events : List EventShm)
    → length (all_waiting j now evs events) ≤ length evs
length-all_waiting j now [] events = omega arith
length-all_waiting j now (ev ∷ evs) [] = omega arith
length-all_waiting j now (ev ∷ evs) (e ∷ events) =
    let rest = length-all_waiting j now evs events in
    elim (Option-cases (waiting j now ev e)) [
      | inl w ↦ rw w (omega arith)
      | inr (n, w) ↦ rw w (omega arith)
    ]

-- What waits at one event is among all that waits.
all_waiting_at :
    (j i : ℕ) (now : ℤ) (evs : List EventConf) (events : List EventShm) (ev : EventConf)
    (e : EventShm) (n : Notification)
    → get_elem? evs i ≡ some ev
    → get_elem? events i ≡ some e
    → waiting j now ev e ≡ some n
    → (k : ℕ) × (get_elem? (all_waiting j now evs events) k ≡ some n)
all_waiting_at j i now [] events ev e n g h w = cc
all_waiting_at j i now (x ∷ evs) [] ev e n g h w = cc
all_waiting_at j zero now (x ∷ evs) (y ∷ events) ev e n g h w =
    let same_conf : x ≡ ev = ground arith in
    let same_event : y ≡ e = ground arith in (0, rw (same_conf, same_event, w) refl)
all_waiting_at j (suc i) now (x ∷ evs) (y ∷ events) ev e n g h w =
    let (k, found) = all_waiting_at j i now evs events ev e n g h w in
    elim (Option-cases (waiting j now x y)) [
      | inl nothing ↦ (k, rw nothing found)
      | inr (m, first) ↦ (suc k, rw first found)
    ]

waiting_set :
    (j : ℕ) (now : ℤ) (ev : EventConf) (e : EventShm) (topic : Bytes)
    → ev.topic ≡ some topic
    → test_bit e.pull_notify j ≡ true
    → waiting j now ev e ≡ some (notification j now topic ev e)
unfolding waiting
waiting_set j now ev e topic t b = rw (t, b) refl

module _ (long_of : ℤ → ℤ) (ctx : ServiceContext) (ch : Change) (on : Option Bool) (server : Server)
    (session : Session) (later : ℤ) where
  -- An event that changes, and is not suppressed by the debounce, reaches the client: if the slot of
  -- a session holds a pull point that has not expired and whose filter lets the event's topic
  -- through, then PullMessages for that slot, at any later time but from the memory that the change
  -- left, with a message limit of at least the number of events, sends a notification with the topic
  -- of the event.
  pub emit_event-pull_deliver :
      (e : EventShm) (last : ℤ) (s : Subscription) (ev : EventConf) (topic : Bytes)
      → get_elem? server.shm.events ch.index ≡ some e
      → get_elem? server.last_emit_time ch.index ≡ some last
      → get_elem? server.shm.subscriptions session.sub_index ≡ some s
      → get_elem? ctx.events ch.index ≡ some ev
      → ev.topic ≡ some topic
      → allowed long_of ctx.events_min_interval_ms ch.now last ≡ true
      → is_told ch s.used s ≡ true
      → length ctx.events ≤ pos_part session.limit
      → (n : Notification) × (k : ℕ) × (get_elem?
            (pull_deliver ctx session later (emit_event long_of ctx ch on server).0.shm).sent
            k
          ≡ some n)
        × (n.topic ≡ topic)
  unfolding notification
  emit_event-pull_deliver e last s ev topic here emitted there conf t go told room =
      let after = (emit_event long_of ctx ch on server).0.shm in
      let (e', found, _, bit, _) =
        emit_event-is_told long_of ctx ch on server e last session.sub_index s here emitted there in
      let is_set : test_bit e'.pull_notify session.sub_index ≡ true =
        bit ∙ rw (go, told) (ground arith) in
      let (k, at_k) =
        all_waiting_at session.sub_index ch.index later ctx.events after.events ev e'
          (notification session.sub_index later topic ev e') conf found
          (waiting_set session.sub_index later ev e' topic t is_set) in
      let everything =
        take_all (pos_part session.limit)
          (all_waiting session.sub_index later ctx.events after.events)
          (omega (arith, length-all_waiting session.sub_index later ctx.events after.events)) in
      (
        notification session.sub_index later topic ev e',
        k,
        rw ((pull_deliver-splits ctx session later after).0, everything) at_k,
        refl,
      )
