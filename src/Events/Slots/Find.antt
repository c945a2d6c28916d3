-- ===== src/Events/Slots/Find.antt =====
-- What the searches over the table find.
use thingino_onvif.Base.{
  ℕ, zero, suc, ◌+◌, Bool, true, false, List, [], ◌∷◌, Option, none, some, ◌==◌, ◌≡◌, ◌≢◌, inl, inr,
  refl, ap, arith, set, get_elem?, All, All-get, Bool-cases,
}
use thingino_onvif.Events.Slots.Ids.{UniqueIds}
use thingino_onvif.Events.Slots.{find_slot, update_slot}
use thingino_onvif.Events.State.{Subscription}

-- The index and contents of a slot that passes the test.
pub record Hit (test : Subscription → Bool) (k : ℕ) (subs : List Subscription) (i : ℕ)
    (s : Subscription) : Type 0 where
  pub offset : ℕ
  pub place : i ≡ k + offset
  pub slot : get_elem? subs offset ≡ some s
  pub passes : test s ≡ true

pub find_slot-Hit :
    (test : Subscription → Bool) (k : ℕ) (subs : List Subscription) (i : ℕ) (s : Subscription)
    → find_slot test k subs ≡ some (i, s)
    → Hit test k subs i s
unfolding find_slot
find_slot-Hit test k [] i s h = cc
find_slot-Hit test k (x ∷ subs) i s h = elim (Bool-cases (test x)) [
  | inl yes_x ↦
      let e : ◌≡◌ {A = Option (ℕ × Subscription)} (some (k, x)) (some (i, s)) = rw yes_x at h in
      record { offset = 0; place = ground arith; slot = ground arith; passes = ground arith }
  | inr no_x ↦
      let e : find_slot test (k + 1) subs ≡ some (i, s) = rw no_x at h in
      let later = find_slot-Hit test (k + 1) subs i s e in
      record {
        offset = suc later.offset;
        place = omega (arith, later.place);
        slot = later.slot;
        passes = later.passes;
      }
]

-- A search fails only if no slot passes.
pub find_slot-none :
    (test : Subscription → Bool) (k : ℕ) (subs : List Subscription)
    → find_slot test k subs ≡ none
    → All (λ s. test s ≡ false) subs
unfolding find_slot
find_slot-none test k [] h = tt
find_slot-none test k (x ∷ subs) h = elim (Bool-cases (test x)) [
  | inl yes_x ↦ absurd (cc (rw yes_x at h))
  | inr no_x ↦ (no_x, find_slot-none test (k + 1) subs (rw no_x at h))
]

-- With unique identifiers, the search for the identifier of a slot in use finds that slot.
pub find_slot-id :
    (k j n : ℕ) (subs : List Subscription) (s : Subscription)
    → UniqueIds subs
    → get_elem? subs j ≡ some s
    → s.id ≡ n
    → n ≢ 0
    → find_slot (λ t. t.id == n) k subs ≡ some (k + j, s)
unfolding find_slot
find_slot-id k j n [] s u g e ne = cc
find_slot-id k zero n (x ∷ subs) s u g e ne = ground arith
find_slot-id k (suc j) n (x ∷ subs) s (inl z, u) g e ne =
    ground (arith, find_slot-id (k + 1) j n subs s u g e ne)
find_slot-id k (suc j) n (x ∷ subs) s (inr a, u) g e ne =
    ground (arith, find_slot-id (k + 1) j n subs s u g e ne, All-get (λ t. t.id ≢ x.id) subs j a g)

pub update_slot-set :
    (i : ℕ) (f : Subscription → Subscription) (subs : List Subscription) (s : Subscription)
    → get_elem? subs i ≡ some s
    → update_slot i f subs ≡ set subs i (f s)
unfolding update_slot
update_slot-set i f [] s g = refl
update_slot-set zero f (x ∷ subs) s g = ground arith
update_slot-set (suc i) f (x ∷ subs) s g = ap (◌∷◌ x) (update_slot-set i f subs s g)
