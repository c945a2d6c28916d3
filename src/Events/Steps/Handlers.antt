-- ===== src/Events/Steps/Handlers.antt =====
-- A request handler changes the memory by steps of the system only.
use thingino_onvif.Base.Int.{ℤ}
use thingino_onvif.Base.{ℕ, Option, none, some, ◌≡◌, ◌≢◌, refl, subst, codes}
use thingino_onvif.Events.Requests.Manage.{subscribe, renew, unsubscribe, in_range, checked_sub_id}
use thingino_onvif.Events.Requests.Sync.{set_synchronization_point}
use thingino_onvif.Events.Requests.{
  Checked, pass, stop, ◌>>=◌, require, refuse_if, create_pull_point_subscription, topic_filter,
  initial_termination_time, termination_time,
}
use thingino_onvif.Events.Slots.{is_unused, max_id, find_id, claim_slot}
use thingino_onvif.Events.Slots.Ids.{IsWellFormed}
use thingino_onvif.Text.Decimal.{atoi}
use thingino_onvif.Text.Query.{get_from_query_string}
use thingino_onvif.Events.State.{
  max_subscriptions, sub_pull, sub_push, Shm, ServiceContext, Request, Fault, Reply,
}
use thingino_onvif.Events.Steps.{
  Step, claim, force, need_sync, expire_at, clear, Reach, here, next, Reach-IsWellFormed,
}

>>=-eq-pass {ℓ κ} :
    {A : Type ℓ} {B : Type κ} (m : Checked A) (f : A → Checked B) {b : B}
    → (m >>= f) ≡ pass b
    → (a : A) × (m ≡ pass a) × (f a ≡ pass b)
>>=-eq-pass (pass a) f h = (a, refl, h)
>>=-eq-pass (stop code fault) f h = cc

require-eq-pass {ℓ} :
    {A : Type ℓ} (o : Option A) (code : ℕ) (fault : Fault) {a : A}
    → require o code fault ≡ pass a
    → o ≡ some a
require-eq-pass none code fault h = cc
require-eq-pass (some a) code fault h = cc

pass_memory :
    {m n : Shm} {r s : Reply} → ◌≡◌ {A = Checked (Shm × Reply)} (pass (m, r)) (pass (n, s)) → m ≡ n
pass_memory h = cc

-- The handlers that change the table, but for the parts of PullMessages.
pub data Call : Type 0 where
  create_pull_point_call subscribe_call renew_call unsubscribe_call synchronization_call : Call

unfoldable pub handle :
    Call → ServiceContext → (Shm → Shm) → Request → Option Shm → Checked (Shm × Reply)
handle create_pull_point_call ctx other req memory =
    create_pull_point_subscription ctx other req memory
handle subscribe_call ctx other req memory = subscribe ctx other req memory
handle renew_call ctx other req memory = renew req memory
handle unsubscribe_call ctx other req memory = unsubscribe req memory
handle synchronization_call ctx other req memory = set_synchronization_point ctx req memory

module _ (long_of : ℤ → ℤ) (ctx : ServiceContext) where
  Reach-trans :
      {s t u : Shm} → Reach long_of ctx s t → Reach long_of ctx t u → Reach long_of ctx s u
  Reach-trans r here = r
  Reach-trans r (next q st) = next (Reach-trans r q) st

  one : {s t : Shm} → Step long_of ctx s t → Reach long_of ctx s t
  one st = next here st

  module _ (req : Request) (shm : Shm) (m : Shm) (reply : Reply) where
    renew-Reach : renew req (some shm) ≡ pass (m, reply) → Reach long_of ctx shm m
    unfolding renew
    renew-Reach h =
        let (id, _, h1) = >>=-eq-pass (checked_sub_id req) _ h in
        let (term, _, h2) = >>=-eq-pass (require (req.body "TerminationTime") 3 _) _ h1 in
        let ((i, s), _, h3) = >>=-eq-pass (require (find_id id shm.subscriptions) 5 _) _ h2 in
        let (_, _, h4) = >>=-eq-pass (refuse_if (is_unused s.used) 6 _) _ h3 in
        subst (Reach long_of ctx shm) (pass_memory h4)
          (one (expire_at i (termination_time req term)))

    unsubscribe-Reach : unsubscribe req (some shm) ≡ pass (m, reply) → Reach long_of ctx shm m
    unfolding unsubscribe
    unsubscribe-Reach h =
        let (id, _, h1) = >>=-eq-pass (checked_sub_id req) _ h in
        let ((i, s), _, h2) = >>=-eq-pass (require (find_id id shm.subscriptions) 4 _) _ h1 in
        let (_, _, h3) = >>=-eq-pass (refuse_if (is_unused s.used) 5 _) _ h2 in
        subst (Reach long_of ctx shm) (pass_memory h3) (one (clear i))

    synchronization-Reach :
        set_synchronization_point ctx req (some shm) ≡ pass (m, reply) → Reach long_of ctx shm m
    unfolding set_synchronization_point
    synchronization-Reach h =
        let (value, _, h1) =
          >>=-eq-pass (require (get_from_query_string req.query_string (codes "sub")) 1 _) _ h in
        let (id, _, h2) =
          >>=-eq-pass (require (in_range max_subscriptions (atoi value)) 2 _) _ h1 in
        let ((i, s), _, h3) = >>=-eq-pass (require (find_id id shm.subscriptions) 4 _) _ h2 in
        subst (Reach long_of ctx shm) (pass_memory h3) (next (one (need_sync i)) (force i))

    module _ (other : Shm → Shm) (others : (s : Shm) → Reach long_of ctx s (other s))
        (room : max_id 0 shm.subscriptions ≢ 65535) where
      create-Reach :
          create_pull_point_subscription ctx other req (some shm) ≡ pass (m, reply)
          → Reach long_of ctx shm m
      unfolding create_pull_point_subscription is_unused
      create-Reach h =
          let te = topic_filter req (req.body "Filter") in
          let expire = initial_termination_time req (req.body "InitialTerminationTime") in
          let ((i, id, claimed), c, h1) =
            >>=-eq-pass (require (claim_slot sub_pull expire none te shm) 4 _) _ h in
          let taken =
            claim sub_pull expire none te i id refl room
              (require-eq-pass (claim_slot sub_pull expire none te shm) 4 _ c) in
          subst (Reach long_of ctx shm) (pass_memory h1)
            (next (Reach-trans (one taken) (others claimed)) (force i))

      subscribe-Reach :
          subscribe ctx other req (some shm) ≡ pass (m, reply) → Reach long_of ctx shm m
      unfolding subscribe is_unused
      subscribe-Reach h =
          let te = topic_filter req (req.body "Filter") in
          let expire = initial_termination_time req (req.body "InitialTerminationTime") in
          let (address, _, h1) = >>=-eq-pass (require (req.body "Address") 1 _) _ h in
          let ((i, id, claimed), c, h2) =
            >>=-eq-pass (require (claim_slot sub_push expire (some address) te shm) 5 _) _ h1 in
          let taken =
            claim sub_push expire (some address) te i id refl room
              (require-eq-pass (claim_slot sub_push expire (some address) te shm) 5 _ c) in
          subst (Reach long_of ctx shm) (pass_memory h2)
            (next (Reach-trans (one taken) (others claimed)) (need_sync i))

  -- Whatever a handler that passes its checks leaves in memory is reached by steps of the system, if
  -- that is so for what the other processes do meanwhile, and if no slot has the identifier 65535
  -- when it starts. So a well formed memory stays well formed.
  pub handle-IsWellFormed :
      (call : Call) (other : Shm → Shm) (req : Request) (shm m : Shm) (reply : Reply)
      → ((s : Shm) → Reach long_of ctx s (other s))
      → max_id 0 shm.subscriptions ≢ 65535
      → handle call ctx other req (some shm) ≡ pass (m, reply)
      → IsWellFormed shm
      → Reach long_of ctx shm m × IsWellFormed m
  handle-IsWellFormed call other req shm m reply others room h w =
      let r = handle-Reach call h in (r, Reach-IsWellFormed long_of ctx w r)
    where
      handle-Reach :
          (call : Call)
          → handle call ctx other req (some shm) ≡ pass (m, reply)
          → Reach long_of ctx shm m
      handle-Reach create_pull_point_call h =
          unfold handle in create-Reach req shm m reply other others room h
      handle-Reach subscribe_call h =
          unfold handle in subscribe-Reach req shm m reply other others room h
      handle-Reach renew_call h = unfold handle in renew-Reach req shm m reply h
      handle-Reach unsubscribe_call h = unfold handle in unsubscribe-Reach req shm m reply h
      handle-Reach synchronization_call h = unfold handle in synchronization-Reach req shm m reply h
