-- ===== src/Events/Slots.antt =====
-- The loops over the table of subscriptions that the handlers share.
pub mod Ids
pub mod Find
pub mod Kept
pub mod Claim
pub mod Start
use thingino_onvif.Base.Int.{ℤ}
use thingino_onvif.Base.{
  ℕ, zero, suc, ◌+◌, Bool, true, false, List, [], ◌∷◌, Option, none, some, ◌==◌, ltb, if◌then◌else◌,
  Bytes, length, take, set,
}
use thingino_onvif.Events.State.{
  SubscriptionType, sub_unused, sub_pull, sub_push, Subscription, EventShm, Shm, cleared,
}

unfoldable pub is_unused : SubscriptionType → Bool
is_unused sub_unused = true
is_unused sub_pull = false
is_unused sub_push = false

-- The highest identifier in the table, from `m` on.
unfoldable pub max_id : ℕ → List Subscription → ℕ
max_id m [] = m
max_id m (s ∷ subs) = max_id (if ltb m s.id then s.id else m) subs

-- The identifier of a new subscription: one above the highest, and 1 after 65535.
unfoldable pub next_id : List Subscription → ℕ
unfolding max_id
next_id subs = let m = max_id 0 subs in if m == 65535 then 1 else m + 1

-- The loops that stop at the first slot which passes a test: the slot's index and contents.
unfoldable pub find_slot : (Subscription → Bool) → ℕ → List Subscription → Option (ℕ × Subscription)
find_slot test i [] = none
find_slot test i (s ∷ subs) =
    let later = find_slot test (i + 1) subs in if test s then some (i, s) else later

abbrev pub first_unused : List Subscription → Option (ℕ × Subscription)
first_unused = find_slot (λ s. is_unused s.used) 0

abbrev pub find_id : ℕ → List Subscription → Option (ℕ × Subscription)
find_id sub_id = find_slot (λ s. s.id == sub_id) 0

-- The filter that is stored: one that is too long for the buffer is left out.
unfoldable pub stored_expression : Option Bytes → Bytes
stored_expression none = []
stored_expression (some te) = if ltb (length te) 1023 then te else []

-- `strncpy` into the reference buffer.
unfoldable pub stored_reference : Option Bytes → Bytes
stored_reference none = []
stored_reference (some address) = take 255 address

-- What a free slot becomes: a pull point, or a push subscription with an address.
unfoldable pub fill_slot :
    SubscriptionType → ℕ → ℤ → Option Bytes → Option Bytes → Subscription → Subscription
unfolding stored_expression stored_reference
fill_slot kind id expire address te s = record s {
  id = id;
  reference = stored_reference address;
  used = kind;
  expire = expire;
  topic_expression = stored_expression te;
}

-- Under the semaphore: choose an identifier, and take the first free slot if there is one.
unfoldable pub claim_slot :
    SubscriptionType → ℤ → Option Bytes → Option Bytes → Shm → Option (ℕ × ℕ × Shm)
unfolding next_id find_slot is_unused fill_slot
claim_slot kind expire address te shm = elim (first_unused shm.subscriptions) [
  | none ↦ none
  | some (i, s) ↦
      let id = next_id shm.subscriptions in
      some (
        i,
        id,
        record shm {
          subscriptions = set shm.subscriptions i (fill_slot kind id expire address te s);
        },
      )
]

unfoldable pub update_slot :
    ℕ → (Subscription → Subscription) → List Subscription → List Subscription
update_slot i f [] = []
update_slot zero f (s ∷ subs) = f s ∷ subs
update_slot (suc i) f (s ∷ subs) = s ∷ update_slot i f subs
