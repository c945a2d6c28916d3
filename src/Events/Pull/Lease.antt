-- ===== src/Events/Pull/Lease.antt =====
-- The expiry of a pull point behind the wait of PullMessages.
use thingino_onvif.Base.Int.{ℤ, ◌+ℤ◌, ltb_ℤ, ◌≤ℤ◌}
use thingino_onvif.Base.{
  ℕ, zero, suc, List, [], ◌∷◌, some, ◌≡◌, ◌⊎◌, inl, inr, refl, ap, arith, get_elem?, Bool-cases,
}
use thingino_onvif.Events.Pull.{Session, new_expire, pull_expire}
use thingino_onvif.Events.Requests.Manage.{set_expire}
use thingino_onvif.Events.Slots.{update_slot}
use thingino_onvif.Events.State.{Subscription, Shm}

update_slot-get :
    (i : ℕ) (f : Subscription → Subscription) (subs : List Subscription) (s : Subscription)
    → get_elem? subs i ≡ some s
    → get_elem? (update_slot i f subs) i ≡ some (f s)
unfolding update_slot
update_slot-get i f [] s g = cc
update_slot-get zero f (x ∷ subs) s g = ground arith
update_slot-get (suc i) f (x ∷ subs) s g = update_slot-get i f subs s g

new_expire-cases :
    (session : Session) (now : ℤ)
    → ((new_expire session now ≡ session.previous_expire_time)
        × (now +ℤ session.timeout ≤ℤ session.previous_expire_time))
      ⊎ ((new_expire session now ≡ now +ℤ session.timeout)
          × (session.previous_expire_time ≤ℤ now +ℤ session.timeout))
unfolding new_expire
new_expire-cases session now =
    elim (Bool-cases (ltb_ℤ (now +ℤ session.timeout) session.previous_expire_time)) [
      | inl later ↦ rw later (inl (refl, ground arith))
      | inr earlier ↦ rw earlier (inr (refl, ground arith))
    ]

-- Behind its wait PullMessages gives its slot the later of the expiry that the subscription had and
-- the end of the request's timeout from now on, so that it never shortens a subscription.
pub pull_expire-get :
    (session : Session) (now : ℤ) (shm : Shm) (s : Subscription)
    → get_elem? shm.subscriptions session.sub_index ≡ some s
    → (t : Subscription) × (get_elem? (pull_expire session now shm).subscriptions session.sub_index
        ≡ some t)
      × (session.previous_expire_time ≤ℤ t.expire)
      × (now +ℤ session.timeout ≤ℤ t.expire)
      × ((t.expire ≡ session.previous_expire_time) ⊎ (t.expire ≡ now +ℤ session.timeout))
unfolding pull_expire
pull_expire-get session now shm s g =
    let t = set_expire (new_expire session now) s in
    let at_slot =
      update_slot-get session.sub_index (set_expire (new_expire session now)) shm.subscriptions s
        g in
    elim (new_expire-cases session now) [
      | inl (same, long) ↦ (t, at_slot, rw same (ground arith), rw same long, inl same)
      | inr (same, long) ↦ (t, at_slot, rw same long, rw same (ground arith), inr same)
    ]

set_expire_twice :
    (i : ℕ) (a b : ℤ) (subs : List Subscription)
    → update_slot i (set_expire a) (update_slot i (set_expire b) subs)
      ≡ update_slot i (set_expire a) subs
unfolding update_slot
set_expire_twice i a b [] = refl
set_expire_twice zero a b (s ∷ subs) = refl
set_expire_twice (suc i) a b (s ∷ subs) = ap (◌∷◌ s) (set_expire_twice i a b subs)

-- The expiry that Renew stores for the slot while PullMessages waits is lost: the memory behind the
-- wait is the same as without it.
pub pull_expire-set_expire :
    (session : Session) (now t : ℤ) (shm : Shm)
    → pull_expire session now (record shm {
      subscriptions = update_slot session.sub_index (set_expire t) shm.subscriptions;
    })
      ≡ pull_expire session now shm
unfolding pull_expire
pull_expire-set_expire session now t shm =
    ap (λ subs. record shm { subscriptions = subs })
      (set_expire_twice session.sub_index (new_expire session now) t shm.subscriptions)
