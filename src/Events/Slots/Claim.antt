-- ===== src/Events/Slots/Claim.antt =====
-- Taking a slot: what a new subscription gets, and when there is none to get.
use thingino_onvif.Base.Int.{ℤ}
use thingino_onvif.Base.{
  ℕ, true, false, Option, none, some, ◌≡◌, ◌≢◌, ◌⊎◌, inl, inr, refl, sym, ap, ◌∙◌, arith, set,
  get_elem?, All, All-set, All-get, length-set, Bytes, ◌↔◌, Option-cases, subst, some-eq_inj,
  zero-add, get_elem?-set_self, get_elem?-lt_length,
}
use thingino_onvif.Events.Slots.Find.{find_slot-Hit, find_slot-none, find_slot-id}
use thingino_onvif.Events.Slots.Ids.{
  SlotIsValid, IsWellFormed, UniqueIds-set, next_id-fresh, next_id-bounds,
}
use thingino_onvif.Events.Slots.{
  is_unused, max_id, next_id, first_unused, find_id, fill_slot, claim_slot,
}
use thingino_onvif.Events.State.{SubscriptionType, Subscription, Shm}

module _ (kind : SubscriptionType) (expire : ℤ) (address te : Option Bytes) (shm : Shm) where
  -- What a successful claim has done.
  pub record Claimed (i id : ℕ) (m : Shm) : Type 0 where
    pub free : Subscription
    pub was : get_elem? shm.subscriptions i ≡ some free
    pub unused : is_unused free.used ≡ true
    pub id_is : id ≡ next_id shm.subscriptions
    pub after :
        m.subscriptions
        ≡ set shm.subscriptions i
            (fill_slot kind (next_id shm.subscriptions) expire address te free)
    pub events_kept : m.events ≡ shm.events

  claim_slot_found :
      (k : ℕ) (s : Subscription)
      → first_unused shm.subscriptions ≡ some (k, s)
      → claim_slot kind expire address te shm
        ≡ some (
          k,
          next_id shm.subscriptions,
          record shm {
            subscriptions =
                set shm.subscriptions k
                  (fill_slot kind (next_id shm.subscriptions) expire address te s);
          },
        )
  unfolding claim_slot
  claim_slot_found k s e = rw (e, claim_slot)

  claim_slot_full :
      first_unused shm.subscriptions ≡ none → claim_slot kind expire address te shm ≡ none
  unfolding claim_slot
  claim_slot_full e = rw (e, claim_slot)

  first_unused-Claimed :
      (k : ℕ) (s : Subscription)
      → first_unused shm.subscriptions ≡ some (k, s)
      → Claimed k (next_id shm.subscriptions) (record shm {
        subscriptions =
            set shm.subscriptions k
              (fill_slot kind (next_id shm.subscriptions) expire address te s);
      })
  first_unused-Claimed k s e =
      let hit = find_slot-Hit (λ t. is_unused t.used) 0 shm.subscriptions k s e in
      let place : hit.offset ≡ k = omega (arith, hit.place) in
      record {
        free = s;
        was = rw place at hit.slot;
        unused = hit.passes;
        id_is = refl;
        after = refl;
        events_kept = refl;
      }

  pub claim_slot-Claimed :
      (i id : ℕ) (m : Shm)
      → claim_slot kind expire address te shm ≡ some (i, id, m)
      → Claimed i id m
  claim_slot-Claimed i id m h = by_search (Option-cases (first_unused shm.subscriptions))
    where
      by_search :
          (first_unused shm.subscriptions ≡ none)
            ⊎ ((p : ℕ × Subscription) × (first_unused shm.subscriptions ≡ some p))
          → Claimed i id m
      by_search (inl e) = absurd (cc (claim_slot_full e))
      by_search (inr ((k, s), e)) =
          let same = some-eq_inj (sym (claim_slot_found k s e) ∙ h) in
          subst (λ (p : ℕ × ℕ × Shm). Claimed p.0 p.1 p.2) same (first_unused-Claimed k s e)

  -- A claim fails exactly when every slot of the table is in use.
  pub claim_slot-none :
      (claim_slot kind expire address te shm ≡ none)
      ↔ All (λ s. is_unused s.used ≡ false) shm.subscriptions
  claim_slot-none = (forward, backward)
    where
      forward :
          claim_slot kind expire address te shm ≡ none
          → All (λ s. is_unused s.used ≡ false) shm.subscriptions
      forward h = elim (Option-cases (first_unused shm.subscriptions)) [
        | inl e ↦ find_slot-none (λ s. is_unused s.used) 0 shm.subscriptions e
        | inr ((k, s), e) ↦ absurd (cc (claim_slot_found k s e))
      ]

      backward :
          All (λ s. is_unused s.used ≡ false) shm.subscriptions
          → claim_slot kind expire address te shm ≡ none
      backward full = elim (Option-cases (first_unused shm.subscriptions)) [
        | inl e ↦ claim_slot_full e
        | inr ((k, s), e) ↦
            let hit = find_slot-Hit (λ t. is_unused t.used) 0 shm.subscriptions k s e in
            absurd (
              cc (
                hit.passes,
                All-get (λ t. is_unused t.used ≡ false) shm.subscriptions hit.offset full hit.slot,
              ))
      ]

-- A claim for a kind that is in use keeps a well formed table well formed, as long as no slot has the
-- identifier 65535.
pub claim_slot-IsWellFormed :
    (kind : SubscriptionType) (expire : ℤ) (address te : Option Bytes) (shm : Shm) (i id : ℕ)
    (m : Shm)
    → is_unused kind ≡ false
    → IsWellFormed shm
    → max_id 0 shm.subscriptions ≢ 65535
    → claim_slot kind expire address te shm ≡ some (i, id, m)
    → IsWellFormed m
claim_slot-IsWellFormed kind expire address te shm i id m used w room h =
    let c = claim_slot-Claimed kind expire address te shm i id m h in
    let new = fill_slot kind (next_id shm.subscriptions) expire address te c.free in
    let bounds = next_id-bounds shm.subscriptions w.valid in
    record {
      slots = rw c.after (length-set shm.subscriptions i new ∙ w.slots);
      records = rw c.events_kept w.records;
      valid = rw c.after (
          All-set SlotIsValid shm.subscriptions i new w.valid (
            unfold fill_slot in
            record {
              free_zero = λ u. absurd (cc);
              zero_free = λ z. absurd (omega (arith, bounds.0));
              bounded = bounds.1;
            }));
      unique = rw c.after (
          UniqueIds-set shm.subscriptions i new w.unique
            (unfold fill_slot in inr (next_id-fresh shm.subscriptions room)));
    }

-- In a well formed table where no slot has the identifier 65535, a claim for a kind of subscription
-- that is in use, which succeeds, leaves a table where the search for the new identifier finds the
-- slot that was taken, with the kind, the identifier and the expiry of the claim.
pub claim_slot-find_id :
    (kind : SubscriptionType) (expire : ℤ) (address te : Option Bytes) (shm : Shm) (i id : ℕ)
    (m : Shm)
    → is_unused kind ≡ false
    → IsWellFormed shm
    → max_id 0 shm.subscriptions ≢ 65535
    → claim_slot kind expire address te shm ≡ some (i, id, m)
    → (s : Subscription) × (find_id id m.subscriptions ≡ some (i, s))
      × (s.used ≡ kind)
      × (s.id ≡ id)
      × (s.expire ≡ expire)
claim_slot-find_id kind expire address te shm i id m used w room h =
    let c = claim_slot-Claimed kind expire address te shm i id m h in
    let new = fill_slot kind (next_id shm.subscriptions) expire address te c.free in
    let w' = claim_slot-IsWellFormed kind expire address te shm i id m used w room h in
    let bounds = next_id-bounds shm.subscriptions w.valid in
    let here : get_elem? m.subscriptions i ≡ some new = rw c.after (
      get_elem?-set_self shm.subscriptions i new (get_elem?-lt_length shm.subscriptions i c.was)) in
    let new_id : new.id ≡ id = unfold fill_slot in sym c.id_is in
    (
      new,
      find_slot-id 0 i id m.subscriptions new w'.unique here new_id
            (omega (arith, bounds.0, c.id_is))
          ∙ ap (λ k. some (k, new)) (zero-add i),
      unfold fill_slot in refl,
      new_id,
      unfold fill_slot in refl,
    )
