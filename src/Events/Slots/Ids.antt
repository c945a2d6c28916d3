-- ===== src/Events/Slots/Ids.antt =====
-- Identifiers in the table: a slot that is in use has one, and no two slots share one.
use thingino_onvif.Base.{
  ℕ, zero, suc, ◌+◌, ◌≤◌, ◌<◌, true, List, [], ◌∷◌, some, ◌==◌, ◌≡◌, ◌≢◌, ◌⊎◌, inl, inr, sym, arith,
  ltb, if◌then◌else◌, length, set, get_elem?, All, All-set, Bool-cases, ==_iff,
}
use thingino_onvif.Events.Slots.{is_unused, max_id, next_id}
use thingino_onvif.Events.State.{Subscription, Shm}

-- A slot is free exactly when its identifier is 0, and identifiers have 16 bits.
pub record SlotIsValid (s : Subscription) : Type 0 where
  pub free_zero : is_unused s.used ≡ true → s.id ≡ 0
  pub zero_free : s.id ≡ 0 → is_unused s.used ≡ true
  pub bounded : s.id ≤ 65535

-- No identifier of a slot in use occurs twice.
abbrev pub UniqueIds : List Subscription → Type 0
UniqueIds [] = Unit {0}
UniqueIds (s ∷ subs) = ((s.id ≡ 0) ⊎ All (λ t. t.id ≢ s.id) subs) × UniqueIds subs

pub record IsWellFormed (shm : Shm) : Type 0 where
  pub slots : length shm.subscriptions ≡ 32
  pub records : length shm.events ≡ 8
  pub valid : All SlotIsValid shm.subscriptions
  pub unique : UniqueIds shm.subscriptions

All-ne-set :
    (n : ℕ) (subs : List Subscription) (i : ℕ) (v : Subscription)
    → All (λ t. t.id ≢ n) subs
    → v.id ≢ n
    → All (λ t. t.id ≢ n) (set subs i v)
All-ne-set n subs i v h hv = All-set (λ t. t.id ≢ n) subs i v h hv

-- A slot may get an identifier that nobody has, or none.
pub UniqueIds-set :
    (subs : List Subscription) (i : ℕ) (v : Subscription)
    → UniqueIds subs
    → (v.id ≡ 0) ⊎ All (λ t. t.id ≢ v.id) subs
    → UniqueIds (set subs i v)
UniqueIds-set [] i v u f = tt
UniqueIds-set (s ∷ subs) zero v (h, u) (inl z) = (inl z, u)
UniqueIds-set (s ∷ subs) zero v (h, u) (inr (ne, f)) = (inr f, u)
UniqueIds-set (s ∷ subs) (suc i) v (inl z, u) (inl z') = (inl z, UniqueIds-set subs i v u (inl z'))
UniqueIds-set (s ∷ subs) (suc i) v (inl z, u) (inr (ne, f)) =
    (inl z, UniqueIds-set subs i v u (inr f))
UniqueIds-set (s ∷ subs) (suc i) v (inr a, u) (inr (ne, f)) =
    (inr (All-ne-set s.id subs i v a (λ e. ne (sym e))), UniqueIds-set subs i v u (inr f))
UniqueIds-set (s ∷ subs) (suc i) v (inr a, u) (inl z) = elim (Bool-cases (s.id == 0)) [
  | inl zero_id ↦ (inl ((==_iff s.id 0).0 zero_id), UniqueIds-set subs i v u (inl z))
  | inr used_id ↦
      (inr (All-ne-set s.id subs i v a (ground arith)), UniqueIds-set subs i v u (inl z))
]

ids_same :
    (n : ℕ) (subs : List Subscription) (i : ℕ) (s v : Subscription)
    → get_elem? subs i ≡ some s
    → v.id ≡ s.id
    → All (λ t. t.id ≢ n) subs
    → All (λ t. t.id ≢ n) (set subs i v)
ids_same n [] i s v g e h = tt
ids_same n (x ∷ subs) zero s v g e (hx, h) = (ground arith, h)
ids_same n (x ∷ subs) (suc i) s v g e (hx, h) = (hx, ids_same n subs i s v g e h)

-- A slot may change in all but its identifier.
pub UniqueIds-set_same :
    (subs : List Subscription) (i : ℕ) (s v : Subscription)
    → get_elem? subs i ≡ some s
    → v.id ≡ s.id
    → UniqueIds subs
    → UniqueIds (set subs i v)
UniqueIds-set_same [] i s v g e u = tt
UniqueIds-set_same (x ∷ subs) zero s v g e (inl z, u) = (inl (ground arith), u)
UniqueIds-set_same (x ∷ subs) zero s v g e (inr h, u) =
    (inr (let same : v.id ≡ x.id = ground arith in rw same h), u)
UniqueIds-set_same (x ∷ subs) (suc i) s v g e (inl z, u) =
    (inl z, UniqueIds-set_same subs i s v g e u)
UniqueIds-set_same (x ∷ subs) (suc i) s v g e (inr h, u) =
    (inr (ids_same x.id subs i s v g e h), UniqueIds-set_same subs i s v g e u)

-- The highest identifier is an upper bound.
le-max_id : (m : ℕ) (subs : List Subscription) → m ≤ max_id m subs
unfolding max_id
le-max_id m [] = omega arith
le-max_id m (s ∷ subs) = ground (arith, le-max_id m subs, le-max_id s.id subs)

pub max_id-bounds : (m : ℕ) (subs : List Subscription) → All (λ t. t.id ≤ max_id m subs) subs
unfolding max_id
max_id-bounds m [] = tt
max_id-bounds m (s ∷ subs) = (
  ground (arith, le-max_id m subs, le-max_id s.id subs),
  max_id-bounds (if ltb m s.id then s.id else m) subs,
)

max_id-le :
    (m : ℕ) (subs : List Subscription) → m ≤ 65535 → All SlotIsValid subs → max_id m subs ≤ 65535
unfolding max_id
max_id-le m [] h v = h
max_id-le m (s ∷ subs) h (vs, v) =
    max_id-le (if ltb m s.id then s.id else m) subs (ground (arith, vs.bounded)) v

fresh_above :
    (m n : ℕ) (subs : List Subscription)
    → All (λ t. t.id ≤ m) subs
    → m < n
    → All (λ t. t.id ≢ n) subs
fresh_above m n [] h lt = tt
fresh_above m n (s ∷ subs) (hs, h) lt = (omega arith, fresh_above m n subs h lt)

-- As long as 65535 is not taken, a new identifier is nobody's.
pub next_id-fresh :
    (subs : List Subscription) → max_id 0 subs ≢ 65535 → All (λ t. t.id ≢ next_id subs) subs
unfolding next_id
next_id-fresh subs h =
    let m = max_id 0 subs in
    let new : (if m == 65535 then 1 else m + 1) ≡ m + 1 = ground arith in
    rw new (fresh_above m (m + 1) subs (max_id-bounds 0 subs) (omega arith))

pub next_id-bounds :
    (subs : List Subscription) → All SlotIsValid subs → (1 ≤ next_id subs) × (next_id subs ≤ 65535)
unfolding next_id
next_id-bounds subs v = ground (arith, max_id-le 0 subs (omega arith) v)
