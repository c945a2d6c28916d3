-- ===== src/Events/Steps.antt =====
-- The locked parts of all processes as the steps of one system. A handler or a thread is a sequence
-- of such steps, with steps of the others between them.
pub mod Handlers
use thingino_onvif.Base.Int.{ℤ, pos}
use thingino_onvif.Base.{
  ℕ, zero, suc, Bool, true, false, List, [], ◌∷◌, Option, none, some, ◌≡◌, ◌≢◌, inl, inr, refl, sym,
  ap, ◌∙◌, arith, if◌then◌else◌, Bytes, length, get_elem?, set, length-set, Bool-cases,
  Option-cases,
}
use thingino_onvif.Events.Notify.Cleaning.{
  sync_slot, reset_need_sync, clean_expired_subscriptions, clean_expired_subscriptions-IsWellFormed,
}
use thingino_onvif.Events.Notify.{Change, Server, Message, emit_event, report_if}
use thingino_onvif.Events.Pull.Passes.{pull_deliver-length}
use thingino_onvif.Events.Pull.{Session, pull_deliver}
use thingino_onvif.Events.Requests.Manage.{set_expire, clear_slot, set_need_sync}
use thingino_onvif.Events.Requests.{force_notification, mark_initialized}
use thingino_onvif.Events.Slots.Claim.{claim_slot-IsWellFormed}
use thingino_onvif.Events.Slots.Ids.{SlotIsValid, UniqueIds, IsWellFormed}
use thingino_onvif.Events.Slots.Kept.{Kept-refl, update_slot-Kept, IsWellFormed-Kept}
use thingino_onvif.Events.Slots.{is_unused, max_id, claim_slot, update_slot}
use thingino_onvif.Events.State.{
  SubscriptionType, Subscription, EventShm, EventConf, Shm, ServiceContext, cleared, silent,
  initial,
}

-- The table with one slot changed.
abbrev pub with_slot : ℕ → (Subscription → Subscription) → Shm → Shm
with_slot i f shm = record shm { subscriptions = update_slot i f shm.subscriptions }

-- A claim is a step only while no slot has the identifier 65535, behind which the handlers begin
-- again at 1.
pub data Step (long_of : ℤ → ℤ) (ctx : ServiceContext) : Shm → Shm → Type 0 where
  claim :
      (kind : SubscriptionType) (expire : ℤ) (address te : Option Bytes) {shm m : Shm} (i id : ℕ)
      → is_unused kind ≡ false
      → max_id 0 shm.subscriptions ≢ 65535
      → claim_slot kind expire address te shm ≡ some (i, id, m)
      → Step long_of ctx shm m
  force : {shm : Shm} (i : ℕ) → Step long_of ctx shm (force_notification ctx i shm)
  need_sync : {shm : Shm} (i : ℕ) → Step long_of ctx shm (with_slot i set_need_sync shm)
  expire_at : {shm : Shm} (i : ℕ) (t : ℤ) → Step long_of ctx shm (with_slot i (set_expire t) shm)
  clear : {shm : Shm} (i : ℕ) → Step long_of ctx shm (clear_slot i shm)
  deliver :
      {shm : Shm} (session : Session) (now : ℤ)
      → Step long_of ctx shm (pull_deliver ctx session now shm).after
  synchronise :
      {shm : Shm} (clock : ℕ → ℤ) (exists : Bytes → Bool) (i : ℕ)
      → Step long_of ctx shm (sync_slot ctx clock exists i shm).0
  clean : {shm : Shm} (clock : ℕ → ℤ) → Step long_of ctx shm (clean_expired_subscriptions clock shm)
  emit :
      (server : Server) (ch : Change) (on : Option Bool)
      → Step long_of ctx server.shm (emit_event long_of ctx ch on server).0.shm

pub data Reach (long_of : ℤ → ℤ) (ctx : ServiceContext) (s : Shm) : Shm → Type 0 where
  here : Reach long_of ctx s s
  next : {t u : Shm} → Reach long_of ctx s t → Step long_of ctx t u → Reach long_of ctx s u

module _ (long_of : ℤ → ℤ) (ctx : ServiceContext) where
  with_slot-IsWellFormed :
      (i : ℕ) (f : Subscription → Subscription) (shm : Shm)
      → ((s : Subscription) → ((f s).id ≡ s.id) × ((f s).used ≡ s.used))
      → IsWellFormed shm
      → IsWellFormed (with_slot i f shm)
  with_slot-IsWellFormed i f shm keep w =
      IsWellFormed-Kept shm (with_slot i f shm) w
        (update_slot-Kept i f shm.subscriptions (λ s. inl (keep s))) refl

  events-IsWellFormed :
      (shm m : Shm)
      → m.subscriptions ≡ shm.subscriptions
      → length m.events ≡ length shm.events
      → IsWellFormed shm
      → IsWellFormed m
  events-IsWellFormed shm m same len w = record {
    slots = rw same w.slots;
    records = len ∙ w.records;
    valid = rw same w.valid;
    unique = rw same w.unique;
  }

  length-mark_initialized :
      (te : Bytes) (j : ℕ) (evs : List EventConf) (events : List EventShm)
      → length (mark_initialized te j evs events) ≡ length events
  unfolding mark_initialized
  length-mark_initialized te j [] events = refl
  length-mark_initialized te j (ev ∷ evs) [] = refl
  length-mark_initialized te j (ev ∷ evs) (e ∷ events) =
      ap suc (length-mark_initialized te j evs events)

  report_if-IsWellFormed :
      (b : Bool) (ch : Change) (on : Option Bool) (e : EventShm) (server : Server)
      → IsWellFormed server.shm
      → IsWellFormed (report_if long_of b ctx ch on e server).0.shm
  unfolding report_if
  report_if-IsWellFormed true ch on e server w =
      events-IsWellFormed server.shm _ refl (length-set server.shm.events ch.index _) w
  report_if-IsWellFormed false ch on e server w =
      events-IsWellFormed server.shm _ refl (length-set server.shm.events ch.index _) w

  emit_event-IsWellFormed :
      (ch : Change) (on : Option Bool) (server : Server)
      → IsWellFormed server.shm
      → IsWellFormed (emit_event long_of ctx ch on server).0.shm
  emit_event-IsWellFormed ch on server w =
      elim (Option-cases (get_elem? server.shm.events ch.index)) [
        | inl n ↦ unfold emit_event in rw (n, emit_event) w
        | inr (e, s) ↦ elim (Option-cases (get_elem? server.last_emit_time ch.index)) [
          | inl n ↦ unfold emit_event in rw (s, n, emit_event) w
          | inr (last, l) ↦
              unfold emit_event in rw (s, l, emit_event) (report_if-IsWellFormed _ ch on e server w)
        ]
      ]

  sync_slot-IsWellFormed :
      (clock : ℕ → ℤ) (exists : Bytes → Bool) (i : ℕ) (shm : Shm)
      → IsWellFormed shm
      → IsWellFormed (sync_slot ctx clock exists i shm).0
  sync_slot-IsWellFormed clock exists i shm w =
      elim (Option-cases (get_elem? shm.subscriptions i)) [
        | inl n ↦ unfold sync_slot in rw (n, sync_slot) w
        | inr (s, g) ↦ elim (Bool-cases s.push_need_sync) [
          | inl flagged ↦
              unfold sync_slot in
              rw (g, flagged, sync_slot)
                (with_slot-IsWellFormed i reset_need_sync shm (λ s. (refl, refl)) w)
          | inr idle ↦ unfold sync_slot in rw (g, idle, sync_slot) w
        ]
      ]

  Step-IsWellFormed : {shm m : Shm} → Step long_of ctx shm m → IsWellFormed shm → IsWellFormed m
  Step-IsWellFormed (claim kind expire address te {shm} {m} i id used room h) w =
      claim_slot-IsWellFormed kind expire address te shm i id m used w room h
  Step-IsWellFormed (force {shm} i) w =
      unfold force_notification in
      events-IsWellFormed shm _ refl (length-mark_initialized _ i ctx.events shm.events) w
  Step-IsWellFormed (need_sync {shm} i) w =
      with_slot-IsWellFormed i set_need_sync shm (λ s. (refl, refl)) w
  Step-IsWellFormed (expire_at {shm} i t) w =
      with_slot-IsWellFormed i (set_expire t) shm (λ s. (refl, refl)) w
  Step-IsWellFormed (clear {shm} i) w =
      IsWellFormed-Kept shm (clear_slot i shm) w
        (update_slot-Kept i (λ s. cleared) shm.subscriptions (λ s. inr (refl, refl))) refl
  Step-IsWellFormed (deliver {shm} session now) w =
      events-IsWellFormed shm _ (unfold pull_deliver in refl)
        (pull_deliver-length ctx session now shm) w
  Step-IsWellFormed (synchronise {shm} clock exists i) w =
      sync_slot-IsWellFormed clock exists i shm w
  Step-IsWellFormed (clean {shm} clock) w = clean_expired_subscriptions-IsWellFormed clock shm w
  Step-IsWellFormed (emit server ch on) w = emit_event-IsWellFormed ch on server w

  -- In every memory that steps of the processes reach from a well formed one, a slot is free exactly
  -- when its identifier is 0, identifiers have 16 bits, no two slots in use share one, and there are
  -- 32 slots and 8 event records. Slots are claimed only while none has the identifier 65535.
  pub Reach-IsWellFormed :
      {shm m : Shm} → IsWellFormed shm → Reach long_of ctx shm m → IsWellFormed m
  Reach-IsWellFormed w here = w
  Reach-IsWellFormed w (next r st) = Step-IsWellFormed st (Reach-IsWellFormed w r)
