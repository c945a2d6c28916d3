-- ===== src/Ptz/Tours/Refine.antt =====
-- The handlers that change the tours of src/ptz_service.c, against what they promise of a map from
-- tokens to names and states.
use thingino_onvif.Ptz.Tours.Promise.{
  TourCall, changed, create, modify, on_entry, operate, promised, remove, renamed_entry, run,
  unknown_operation,
}
use mathlib.Core.Path.{fun_ext}
use thingino_onvif.Base.{
  ℕ, zero, suc, ◌^◌, ◌<◌, ◌&&◌, List, [], ◌∷◌, ◌++◌, ◌≡◌, refl, sym, ap, ◌∙◌, arith, Option, none,
  some, inl, inr, Bytes, length, ltb, leb, Option-cases,
}
use thingino_onvif.Ptz.Tours.Tokens.{tour_token-absent}
use thingino_onvif.Ptz.Tours.View.{
  Entry, put, entry, view, Distinct, IsFirst, tour_index_by_token-none, tour_index_by_token-some,
  view-update_tour, view-remove_tour, view-append,
}
use thingino_onvif.Ptz.Tours.{
  Tour, Command, tour_index_by_token, update_tour, tour_token, next_tour_number, new_tour,
  missing_tour, find_tour, create_preset_tour, renamed, modify_preset_tour, operation_of,
  with_status, operate_preset_tour, remove_preset_tour,
}
use thingino_onvif.Ptz.{
  PtzNode, PtzRequest, action_failed, Handled, served, refused, ◌>>=◌, ◌>>◌, need, unless, no_token,
  check_profile, undefined, Page,
}

-- A handler that goes on with the index of a tour goes on with its entry in the map.
index_view {ℓ κ} :
    {A : Type ℓ} {B : Type κ} (g : A → B) (token : Bytes) (ts : List Tour) (k : ℕ → Handled A)
    (k' : Entry → Handled B)
    → ((j : ℕ) (u : Tour) → IsFirst token j ts u → changed g (k j) ≡ k' (entry u))
    → changed g (need (tour_index_by_token 0 token ts) 4 missing_tour >>= k)
      ≡ (need (view ts token) 4 missing_tour >>= k')
index_view g token ts k k' h = elim (Option-cases (view ts token)) [
  | inl gone ↦ rw (gone, tour_index_by_token-none 0 token ts gone)
  | inr (e, here) ↦
      let (j, u, found, first, is) = tour_index_by_token-some 0 token ts e here in
      let at_j : tour_index_by_token 0 token ts ≡ some j = found ∙ ap some (omega arith) in
      rw (here, at_j) (h j u first ∙ ap k' is)
]

pub find_tour-view {ℓ κ} :
    {A : Type ℓ} {B : Type κ} (g : A → B) (node : PtzNode) (req : PtzRequest) (ts : List Tour)
    (k : ℕ → Handled A) (k' : Bytes → Entry → Handled B)
    → ((token : Bytes) (j : ℕ) (u : Tour)
        → IsFirst token j ts u
        → changed g (k j) ≡ k' token (entry u))
    → changed g (find_tour node req ts >>= k) ≡ on_entry node req (view ts) k'
unfolding find_tour
find_tour-view g node req ts k k' h = checked (check_profile node req) (req.body "PresetTourToken")
  where
    checked :
        (c : Handled (Unit {0})) (o : Option Bytes)
        → changed g (
            (c
              >> (need o 3 missing_tour >>= λ token.
                  need (tour_index_by_token 0 token ts) 4 missing_tour))
            >>= k)
          ≡ (c
              >> (need o 3 missing_tour >>= λ token.
                  need (view ts token) 4 missing_tour >>= k' token))
    checked (refused code e) o = refl
    checked undefined o = refl
    checked (served u) none = refl
    checked (served u) (some token) = index_view g token ts k (k' token) (h token)

changed_twice {ℓ κ μ} :
    {A : Type ℓ} {B : Type κ} {C : Type μ} (f : B → C) (g : A → B) (m : Handled A)
    → changed f (changed g m) ≡ changed (λ a. f (g a)) m
changed_twice f g (served a) = refl
changed_twice f g (refused code e) = refl
changed_twice f g undefined = refl

renamed-entry : (o : Option Bytes) (t : Tour) → entry (renamed o t) ≡ renamed_entry o (entry t)
renamed-entry none t = refl
renamed-entry (some []) t = refl
renamed-entry (some (c ∷ name)) t = refl

pub renamed-token : (o : Option Bytes) (t : Tour) → (renamed o t).token ≡ t.token
renamed-token none t = refl
renamed-token (some []) t = refl
renamed-token (some (c ∷ name)) t = refl

pub IsFirst-token :
    (token : Bytes) (j : ℕ) (ts : List Tour) (u : Tour) → IsFirst token j ts u → u.token ≡ token
IsFirst-token token j [] u h = absurd h
IsFirst-token token zero (t ∷ ts) u (here, is) = ap (λ (x : Tour). x.token) (sym is) ∙ here
IsFirst-token token (suc j) (t ∷ ts) u (other, h) = IsFirst-token token j ts u h

-- A change of one tour that keeps its token, as a change of the map.
view-changed :
    (f : Tour → Tour) (e : Entry) (token : Bytes) (j : ℕ) (ts : List Tour) (u : Tour)
    → ((t : Tour) → (f t).token ≡ t.token)
    → IsFirst token j ts u
    → entry (f u) ≡ e
    → view (update_tour j f ts) ≡ put token e (view ts)
view-changed f e token j ts u keeps first is = fun_ext (λ token'.
    view-update_tour token f j ts u token' first (keeps u ∙ IsFirst-token token j ts u first)
    ∙ ap (λ (x : Entry). put token x (view ts) token') is)

module _ (node : PtzNode) (req : PtzRequest) (ts : List Tour) (count : ℕ) (new : Bytes) where
  modify_view : changed view (run modify node req ts) ≡ promised modify node req count new (view ts)
  unfolding run promised modify_preset_tour
  modify_view =
      changed_twice view (λ r. r.0) (modify_preset_tour node req ts)
      ∙ find_tour-view (λ r. view r.0) node req ts _ _
          λ token j u first. ap served (
            view-changed (renamed (req.body "Name")) (renamed_entry (req.body "Name") (entry u))
              token j ts u (renamed-token (req.body "Name")) first
              (renamed-entry (req.body "Name") u))

  remove_view :
      Distinct ts
      → changed view (run remove node req ts) ≡ promised remove node req count new (view ts)
  unfolding run promised remove_preset_tour
  remove_view d =
      changed_twice view (λ r. r.0) (remove_preset_tour node req ts)
      ∙ find_tour-view (λ r. view r.0) node req ts _ _
          λ token j u first.
            ap served (fun_ext (λ token'. view-remove_tour token j ts u token' d first))

  -- The part of OperatePresetTour behind the search for the tour.
  operated :
      (token : Bytes) (j : ℕ) (u : Tour) (o : Option (Option Bytes × ℕ × Bytes))
      → IsFirst token j ts u
      → changed
          (λ (r : List Tour × Command × Page). view r.0)
          (need o 8 unknown_operation >>= λ x. need x.0 x.1 (action_failed x.1) >>= λ format.
            served (
              update_tour j (with_status x.2) ts,
              (format, token),
              ("ptz_service_files/OperatePresetTour.xml", []),
            ))
        ≡ (need o 8 unknown_operation >>= λ x. need x.0 x.1 (action_failed x.1) >>= λ format.
            served (put token (u.name, x.2) (view ts)))
  operated token j u none first = refl
  operated token j u (some (none, code, next)) first = refl
  operated token j u (some (some format, code, next)) first =
      ap served (view-changed (with_status next) (u.name, next) token j ts u (λ t. refl) first refl)

  operate_view :
      changed view (run operate node req ts) ≡ promised operate node req count new (view ts)
  unfolding run promised operate_preset_tour
  operate_view =
      changed_twice view (λ r. r.0) (operate_preset_tour node req ts)
      ∙ checked (check_profile node req) (req.body "PresetTourToken") (req.body "Operation")
    where
      checked :
          (c : Handled (Unit {0})) (o p : Option Bytes)
          → changed
              (λ (r : List Tour × Command × Page). view r.0)
              (c
                >> (need o 3 (no_token "Missing parameters") >>= λ token.
                    need p 3 (no_token "Missing parameters") >>= λ operation.
                    need (tour_index_by_token 0 token ts) 4 missing_tour >>= λ idx.
                    need (operation_of node operation) 8 unknown_operation >>= λ x.
                    need x.0 x.1 (action_failed x.1) >>= λ format. served (
                      update_tour idx (with_status x.2) ts,
                      (format, token),
                      ("ptz_service_files/OperatePresetTour.xml", []),
                    )))
            ≡ (c
                >> (need o 3 (no_token "Missing parameters") >>= λ token.
                    need p 3 (no_token "Missing parameters") >>= λ operation.
                    need (view ts token) 4 missing_tour >>= λ e.
                    need (operation_of node operation) 8 unknown_operation >>= λ x.
                    need x.0 x.1 (action_failed x.1) >>= λ format.
                    served (put token (e.0, x.2) (view ts))))
      checked (refused code e) o p = refl
      checked undefined o p = refl
      checked (served x) none p = refl
      checked (served x) (some token) none = refl
      checked (served x) (some token) (some operation) =
          index_view (λ r. view r.0) token ts _ _
            λ j u first. operated token j u (operation_of node operation) first

create_view :
    (node : PtzNode) (req : PtzRequest) (ts : List Tour)
    → view ts (tour_token (next_tour_number ts)) ≡ none
    → changed view (run create node req ts)
      ≡ promised create node req (length ts) (tour_token (next_tour_number ts)) (view ts)
unfolding run promised create_preset_tour
create_view node req ts absent =
    changed_twice view (λ r. r.0) (create_preset_tour node req ts)
    ∙ checked (check_profile node req) (
        unless (ltb 0 node.max_preset_tours && leb node.max_preset_tours (length ts)) 3
          (action_failed 3))
  where
    t : Tour
    t = new_tour ts (req.body "Name")

    checked :
        (c d : Handled (Unit {0}))
        → changed
            (λ (r : List Tour × Page). view r.0)
            (c
              >> (d
                  >> served (
                    ts ++ t ∷ [],
                    ("ptz_service_files/CreatePresetTour.xml", ("%TOKEN%", t.token) ∷ []),
                  )))
          ≡ (c >> (d >> served (put t.token (entry t) (view ts))))
    checked (refused code e) d = refl
    checked undefined d = refl
    checked (served x) (refused code e) = refl
    checked (served x) undefined = refl
    checked (served x) (served y) = ap served (fun_ext (λ token'. view-append ts t token' absent))

-- With a table without two tours of one token, whose numbers leave room for one more, every handler
-- that changes the table answers and acts on the map of its tours as promised: the same refusals, and
-- an entry that is added under a token without an entry, renamed, given another state, or deleted.
pub run-promised :
    (node : PtzNode) (req : PtzRequest) (ts : List Tour)
    → Distinct ts
    → next_tour_number ts < 2 ^ 31
    → (token : Bytes) × (view ts token ≡ none)
      × ((call : TourCall)
          → changed view (run call node req ts)
            ≡ promised call node req (length ts) token (view ts))
run-promised node req ts d h =
    let absent = tour_token-absent ts h in
    (tour_token (next_tour_number ts), absent, λ call. each absent call)
  where
    each :
        view ts (tour_token (next_tour_number ts)) ≡ none
        → (call : TourCall)
        → changed view (run call node req ts)
          ≡ promised call node req (length ts) (tour_token (next_tour_number ts)) (view ts)
    each absent create = create_view node req ts absent
    each absent modify = modify_view node req ts (length ts) (tour_token (next_tour_number ts))
    each absent operate = operate_view node req ts (length ts) (tour_token (next_tour_number ts))
    each absent remove = remove_view node req ts (length ts) (tour_token (next_tour_number ts)) d
