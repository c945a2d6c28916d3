-- ===== src/Ptz/Tours/View.antt =====
-- The table of tours as a map from tokens to names and states, and what the loops of
-- src/ptz_service.c over the table do to that map.
use thingino_onvif.Base.{
  ℕ, zero, suc, ◌+◌, false, List, [], ◌∷◌, ◌++◌, ◌≡◌, refl, ap, ◌∙◌, arith, Option, none, some, inl,
  inr, if◌then◌else◌, Bytes, equal, equal_iff, Bool-cases,
}
use thingino_onvif.Ptz.Tours.{Tour, tour_index_by_token, update_tour, remove_tour}

-- What a tour is behind its token: a name and a state.
abbrev pub Entry : Type 0
Entry = Bytes × Bytes

abbrev pub TourMap : Type 0
TourMap = Bytes → Option Entry

abbrev pub put : Bytes → Entry → TourMap → TourMap
put token e m token' = if equal token token' then some e else m token'

abbrev pub delete : Bytes → TourMap → TourMap
delete token m token' = if equal token token' then none else m token'

abbrev pub entry : Tour → Entry
entry t = (t.name, t.status)

-- The first tour with a token is the one that the requests for the token reach.
unfoldable pub view : List Tour → TourMap
view [] token = none
view (t ∷ ts) token =
    let later = view ts token in if equal t.token token then some (entry t) else later

abbrev pub Distinct : List Tour → Type 0
Distinct [] = Unit {0}
Distinct (t ∷ ts) = (view ts t.token ≡ none) × Distinct ts

-- The tour at an index is the first one with the token.
abbrev pub IsFirst : Bytes → ℕ → List Tour → Tour → Type 0
IsFirst token i [] u = ⊥
IsFirst token zero (t ∷ ts) u = (t.token ≡ token) × (t ≡ u)
IsFirst token (suc i) (t ∷ ts) u = (equal t.token token ≡ false) × IsFirst token i ts u

-- The search finds nothing exactly where the map has nothing.
pub tour_index_by_token-none :
    (i : ℕ) (token : Bytes) (ts : List Tour)
    → view ts token ≡ none
    → tour_index_by_token i token ts ≡ none
unfolding view tour_index_by_token
tour_index_by_token-none i token [] h = refl
tour_index_by_token-none i token (t ∷ ts) h =
    ground (arith, tour_index_by_token-none (suc i) token ts)

-- Where the map has an entry, the search finds the index of the first tour with the token.
pub tour_index_by_token-some :
    (i : ℕ) (token : Bytes) (ts : List Tour) (e : Entry)
    → view ts token ≡ some e
    → (j : ℕ) × (u : Tour) × (tour_index_by_token i token ts ≡ some (i + j))
      × IsFirst token j ts u
      × (entry u ≡ e)
unfolding view tour_index_by_token
tour_index_by_token-some i token [] e h = cc
tour_index_by_token-some i token (t ∷ ts) e h = elim (Bool-cases (equal t.token token)) [
  | inl same ↦ (
    0,
    t,
    rw same (ap some (omega arith)),
    ((equal_iff t.token token).0 same, refl),
    ground arith,
  )
  | inr other ↦
      let (j, u, found, first, is) = tour_index_by_token-some (suc i) token ts e (ground arith) in
      (suc j, u, rw other (found ∙ ap some (omega arith)), (other, first), is)
]

-- A change of a tour that keeps its token.
pub view-update_tour :
    (token : Bytes) (f : Tour → Tour) (j : ℕ) (ts : List Tour) (u : Tour) (token' : Bytes)
    → IsFirst token j ts u
    → (f u).token ≡ token
    → view (update_tour j f ts) token' ≡ put token (entry (f u)) (view ts) token'
unfolding view update_tour
view-update_tour token f j [] u token' first kept = absurd first
view-update_tour token f zero (t ∷ ts) u token' (here, is) kept =
    ground (arith, ap f is, equal_iff token token')
view-update_tour token f (suc j) (t ∷ ts) u token' (other, first) kept = ground (
  arith,
  view-update_tour token f j ts u token' first kept,
  equal_iff token token',
  equal_iff t.token token',
)

-- The removal of a tour, where no two tours share a token.
pub view-remove_tour :
    (token : Bytes) (j : ℕ) (ts : List Tour) (u : Tour) (token' : Bytes)
    → Distinct ts
    → IsFirst token j ts u
    → view (remove_tour j ts) token' ≡ delete token (view ts) token'
unfolding view remove_tour
view-remove_tour token j [] u token' d first = absurd first
view-remove_tour token zero (t ∷ ts) u token' (alone, d) (here, is) =
    ground (arith, equal_iff token token')
view-remove_tour token (suc j) (t ∷ ts) u token' (alone, d) (other, first) = ground (
  arith,
  view-remove_tour token j ts u token' d first,
  equal_iff token token',
  equal_iff t.token token',
)

-- A new tour with a token that no tour has.
pub view-append :
    (ts : List Tour) (t : Tour) (token' : Bytes)
    → view ts t.token ≡ none
    → view (ts ++ t ∷ []) token' ≡ put t.token (entry t) (view ts) token'
unfolding view
view-append [] t token' new = refl
view-append (x ∷ ts) t token' new = ground (
  arith,
  view-append ts t token',
  equal_iff t.token token',
  equal_iff x.token token',
  equal_iff x.token t.token,
)

-- What the operations keep apart.
module _ (f : Tour → Tour) (keeps : (t : Tour) → (f t).token ≡ t.token) where
  update_tour-absent :
      (j : ℕ) (ts : List Tour) (token : Bytes)
      → view ts token ≡ none
      → view (update_tour j f ts) token ≡ none
  unfolding view update_tour
  update_tour-absent j [] token h = refl
  update_tour-absent zero (t ∷ ts) token h = ground (arith, keeps t)
  update_tour-absent (suc j) (t ∷ ts) token h = ground (arith, update_tour-absent j ts token)

  pub update_tour-Distinct : (j : ℕ) (ts : List Tour) → Distinct ts → Distinct (update_tour j f ts)
  unfolding update_tour
  update_tour-Distinct j [] d = tt
  update_tour-Distinct zero (t ∷ ts) (alone, d) = (rw (keeps t) alone, d)
  update_tour-Distinct (suc j) (t ∷ ts) (alone, d) =
      (update_tour-absent j ts t.token alone, update_tour-Distinct j ts d)

remove_tour-absent :
    (j : ℕ) (ts : List Tour) (token : Bytes)
    → view ts token ≡ none
    → view (remove_tour j ts) token ≡ none
unfolding view remove_tour
remove_tour-absent j [] token h = refl
remove_tour-absent zero (t ∷ ts) token h = ground arith
remove_tour-absent (suc j) (t ∷ ts) token h = ground (arith, remove_tour-absent j ts token)

pub remove_tour-Distinct : (j : ℕ) (ts : List Tour) → Distinct ts → Distinct (remove_tour j ts)
unfolding remove_tour
remove_tour-Distinct j [] d = tt
remove_tour-Distinct zero (t ∷ ts) (alone, d) = d
remove_tour-Distinct (suc j) (t ∷ ts) (alone, d) =
    (remove_tour-absent j ts t.token alone, remove_tour-Distinct j ts d)

pub append-Distinct :
    (ts : List Tour) (t : Tour) → Distinct ts → view ts t.token ≡ none → Distinct (ts ++ t ∷ [])
unfolding view
append-Distinct [] t d new = (refl, tt)
append-Distinct (x ∷ ts) t (alone, d) new =
    let rest : view ts t.token ≡ none = ground arith in
    (
      view-append ts t x.token rest
          ∙ ground (arith, equal_iff t.token x.token, equal_iff x.token t.token),
      append-Distinct ts t d rest,
    )
