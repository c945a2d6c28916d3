-- ===== src/Events/Requests/Create.antt =====
-- A new subscription, as the later requests for it meet it.
use thingino_onvif.Base.Int.{ℤ}
use thingino_onvif.Base.{ℕ, false, [], Option, some, ◌≡◌, ◌≢◌, ap, ◌∙◌, arith, Bytes}
use thingino_onvif.Events.Requests.Address.{
  query_part, query_part-subscription_address, checked_sub_id-print,
}
use thingino_onvif.Events.Requests.Manage.{
  checked_sub_id, renew, unsubscribe, renew_reply, set_expire, clear_slot,
}
use thingino_onvif.Events.Requests.{pass, subscription_address, termination_time}
use thingino_onvif.Events.Slots.Claim.{claim_slot-Claimed, claim_slot-find_id}
use thingino_onvif.Events.Slots.Ids.{IsWellFormed, next_id-bounds}
use thingino_onvif.Events.Slots.{is_unused, max_id, find_id, claim_slot, update_slot}
use thingino_onvif.Events.State.{
  SubscriptionType, Subscription, Shm, ServiceContext, Request, served,
}
use thingino_onvif.Text.Tokens.{Lacks}

-- `renew` and `unsubscribe` at an identifier whose slot is found.
renew_found :
    (req : Request) (m : Shm) (term : Bytes) (i id : ℕ) (s : Subscription)
    → checked_sub_id req ≡ pass id
    → req.body "TerminationTime" ≡ some term
    → find_id id m.subscriptions ≡ some (i, s)
    → is_unused s.used ≡ false
    → renew req (some m)
      ≡ pass (
        record m {
          subscriptions = update_slot i (set_expire (termination_time req term)) m.subscriptions;
        },
        renew_reply req (termination_time req term),
      )
unfolding renew
renew_found req m term i id s c t f u = rw (c, t, f, u)

unsubscribe_found :
    (req : Request) (m : Shm) (i id : ℕ) (s : Subscription)
    → checked_sub_id req ≡ pass id
    → find_id id m.subscriptions ≡ some (i, s)
    → is_unused s.used ≡ false
    → unsubscribe req (some m)
      ≡ pass (clear_slot i m, served "events_service_files/Unsubscribe.xml" [])
unfolding unsubscribe
unsubscribe_found req m i id s c f u = rw (c, f, u)

module _ (ctx : ServiceContext) (kind : SubscriptionType) (expire : ℤ) (address te : Option Bytes)
    (shm : Shm) (i id : ℕ) (m : Shm) (req : Request) (plain : Lacks b'?' ctx.my_address)
    (used : is_unused kind ≡ false) (w : IsWellFormed shm)
    (room : max_id 0 shm.subscriptions ≢ 65535)
    (claimed : claim_slot kind expire address te shm ≡ some (i, id, m))
    (asked : req.query_string ≡ some (query_part (subscription_address ctx id))) where
  id_checked : checked_sub_id req ≡ pass id
  id_checked =
      let c = claim_slot-Claimed kind expire address te shm i id m claimed in
      let bounds = next_id-bounds shm.subscriptions w.valid in
      checked_sub_id-print req id (omega (arith, c.id_is, bounds.0))
        (omega (arith, c.id_is, bounds.1))
        (asked ∙ ap some (query_part-subscription_address ctx id plain))

  -- A client that sends Renew to the address of its new subscription, with a termination time,
  -- changes the expiry of exactly the slot that it was given: the identifier in the address is
  -- found, and the slot is in use. This holds in a well formed table where no slot has the
  -- identifier 65535, for a device whose own address has no question mark.
  pub renew-claim_slot :
      (term : Bytes)
      → req.body "TerminationTime" ≡ some term
      → renew req (some m)
        ≡ pass (
          record m {
            subscriptions = update_slot i (set_expire (termination_time req term)) m.subscriptions;
          },
          renew_reply req (termination_time req term),
        )
  renew-claim_slot term t =
      let (s, found, kind_is, id_is, expire_is) =
        claim_slot-find_id kind expire address te shm i id m used w room claimed in
      renew_found req m term i id s id_checked t found (rw kind_is used)

  -- A client that sends Unsubscribe to the address of its new subscription frees exactly the slot
  -- that it was given. This holds in a well formed table where no slot has the identifier 65535, for
  -- a device whose own address has no question mark.
  pub unsubscribe-claim_slot :
      unsubscribe req (some m)
      ≡ pass (clear_slot i m, served "events_service_files/Unsubscribe.xml" [])
  unsubscribe-claim_slot =
      let (s, found, kind_is, id_is, expire_is) =
        claim_slot-find_id kind expire address te shm i id m used w room claimed in
      unsubscribe_found req m i id s id_checked found (rw kind_is used)
