-- ===== src/Events/Slots/Kept.antt =====
-- A change of the table that gives no slot a new identifier keeps the table well formed.
use thingino_onvif.Base.{
  ℕ, zero, suc, List, [], ◌∷◌, ◌==◌, ◌≡◌, ◌≢◌, ◌⊎◌, inl, inr, refl, sym, ap, ◌∙◌, arith, All,
  Bool-cases, ==_iff, length,
}
use thingino_onvif.Events.Slots.Ids.{SlotIsValid, UniqueIds, IsWellFormed}
use thingino_onvif.Events.Slots.{is_unused, update_slot}
use thingino_onvif.Events.State.{sub_unused, Subscription, Shm}

-- A slot keeps its identifier and its use, or is freed.
abbrev pub Keeps : Subscription → Subscription → Type 0
Keeps s t = ((t.id ≡ s.id) × (t.used ≡ s.used)) ⊎ ((t.id ≡ 0) × (t.used ≡ sub_unused))

abbrev pub Kept : List Subscription → List Subscription → Type 0
Kept [] [] = Unit {0}
Kept (s ∷ a) (t ∷ b) = Keeps s t × Kept a b
Kept _ _ = ⊥

valid-Keeps : (s t : Subscription) → SlotIsValid s → Keeps s t → SlotIsValid t
valid-Keeps s t v (inl (same_id, same_used)) = record {
  free_zero = λ u. same_id ∙ v.free_zero (rw same_used at u);
  zero_free = λ z. rw same_used (v.zero_free (sym same_id ∙ z));
  bounded = rw same_id v.bounded;
}
valid-Keeps s t v (inr (no_id, no_use)) = record {
  free_zero = λ u. no_id;
  zero_free = λ z. rw no_use (unfold is_unused in refl);
  bounded = rw no_id (omega arith);
}

All-valid-Kept : (a b : List Subscription) → All SlotIsValid a → Kept a b → All SlotIsValid b
All-valid-Kept [] [] v k = tt
All-valid-Kept [] (t ∷ b) v k = absurd k
All-valid-Kept (s ∷ a) [] v k = absurd k
All-valid-Kept (s ∷ a) (t ∷ b) (vs, v) (ks, k) = (valid-Keeps s t vs ks, All-valid-Kept a b v k)

ne-Kept :
    (n : ℕ) (a b : List Subscription)
    → n ≢ 0
    → All (λ t. t.id ≢ n) a
    → Kept a b
    → All (λ t. t.id ≢ n) b
ne-Kept n [] [] h v k = tt
ne-Kept n [] (t ∷ b) h v k = absurd k
ne-Kept n (s ∷ a) [] h v k = absurd k
ne-Kept n (s ∷ a) (t ∷ b) h (vs, v) (inl (e, u), k) = (rw e vs, ne-Kept n a b h v k)
ne-Kept n (s ∷ a) (t ∷ b) h (vs, v) (inr (e, u), k) = (λ z. h (sym z ∙ e), ne-Kept n a b h v k)

UniqueIds-Kept : (a b : List Subscription) → UniqueIds a → Kept a b → UniqueIds b
UniqueIds-Kept [] [] v k = tt
UniqueIds-Kept [] (t ∷ b) v k = absurd k
UniqueIds-Kept (s ∷ a) [] v k = absurd k
UniqueIds-Kept (s ∷ a) (t ∷ b) (vs, v) (inr (e, u), k) = (inl e, UniqueIds-Kept a b v k)
UniqueIds-Kept (s ∷ a) (t ∷ b) (inl z, v) (inl (e, u), k) = (inl (e ∙ z), UniqueIds-Kept a b v k)
UniqueIds-Kept (s ∷ a) (t ∷ b) (inr f, v) (inl (e, u), k) = elim (Bool-cases (s.id == 0)) [
  | inl z ↦ (inl (e ∙ (==_iff s.id 0).0 z), UniqueIds-Kept a b v k)
  | inr nz ↦ (inr (rw e (ne-Kept s.id a b (ground arith) f k)), UniqueIds-Kept a b v k)
]

length-Kept : (a b : List Subscription) → Kept a b → length b ≡ length a
length-Kept [] [] k = refl
length-Kept [] (t ∷ b) k = absurd k
length-Kept (s ∷ a) [] k = absurd k
length-Kept (s ∷ a) (t ∷ b) (ks, k) = ap suc (length-Kept a b k)

pub IsWellFormed-Kept :
    (m m' : Shm)
    → IsWellFormed m
    → Kept m.subscriptions m'.subscriptions
    → length m'.events ≡ length m.events
    → IsWellFormed m'
IsWellFormed-Kept m m' w k e = record {
  slots = length-Kept m.subscriptions m'.subscriptions k ∙ w.slots;
  records = e ∙ w.records;
  valid = All-valid-Kept m.subscriptions m'.subscriptions w.valid k;
  unique = UniqueIds-Kept m.subscriptions m'.subscriptions w.unique k;
}

pub Kept-refl : (a : List Subscription) → Kept a a
Kept-refl [] = tt
Kept-refl (s ∷ a) = (inl (refl, refl), Kept-refl a)

pub update_slot-Kept :
    (i : ℕ) (f : Subscription → Subscription) (a : List Subscription)
    → ((s : Subscription) → Keeps s (f s))
    → Kept a (update_slot i f a)
unfolding update_slot
update_slot-Kept i f [] h = tt
update_slot-Kept zero f (s ∷ a) h = (h s, Kept-refl a)
update_slot-Kept (suc i) f (s ∷ a) h = (inl (refl, refl), update_slot-Kept i f a h)
