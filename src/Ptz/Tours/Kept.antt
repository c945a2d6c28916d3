-- ===== src/Ptz/Tours/Kept.antt =====
-- What every handler of src/ptz_service.c keeps of the table of tours.
use thingino_onvif.Base.{
  ℕ, zero, suc, ◌^◌, ◌<◌, ◌≤◌, false, ◌&&◌, List, [], ◌∷◌, ◌++◌, ◌≡◌, refl, ap, arith, length,
  length-append, ltb, leb,
}
use thingino_onvif.Ptz.Serves.{Serves, Serves-bind, Serves-unless, Serves-elim}
use thingino_onvif.Ptz.Tours.Refine.{renamed-token}
use thingino_onvif.Ptz.Tours.Promise.{TourCall, create, modify, operate, remove, changed, run}
use thingino_onvif.Ptz.Tours.Tokens.{tour_token-absent}
use thingino_onvif.Ptz.Tours.View.{
  Distinct, update_tour-Distinct, remove_tour-Distinct, append-Distinct,
}
use thingino_onvif.Ptz.Tours.{
  Tour, tour_index_by_token, update_tour, remove_tour, next_tour_number, new_tour, find_tour,
  create_preset_tour, renamed, modify_preset_tour, operation_of, with_status, operate_preset_tour,
  remove_preset_tour,
}
use thingino_onvif.Ptz.{
  PtzNode, PtzRequest, Handled, served, refused, need, check_profile, undefined,
}

-- No two tours share a token, and a positive limit on their number is kept.
pub record IsTourTable (node : PtzNode) (ts : List Tour) : Type 0 where
  pub distinct : Distinct ts
  pub bounded : 0 < node.max_preset_tours → length ts ≤ node.max_preset_tours

length-update_tour :
    (j : ℕ) (f : Tour → Tour) (ts : List Tour) → length (update_tour j f ts) ≡ length ts
unfolding update_tour
length-update_tour j f [] = refl
length-update_tour zero f (t ∷ ts) = refl
length-update_tour (suc j) f (t ∷ ts) = ap suc (length-update_tour j f ts)

length-remove_tour : (j : ℕ) (ts : List Tour) → length (remove_tour j ts) ≤ length ts
unfolding remove_tour
length-remove_tour j [] = omega arith
length-remove_tour zero (t ∷ ts) = omega arith
length-remove_tour (suc j) (t ∷ ts) = omega (arith, length-remove_tour j ts)

update_tour-IsTourTable :
    {node : PtzNode} (f : Tour → Tour) (j : ℕ) (ts : List Tour)
    → ((t : Tour) → (f t).token ≡ t.token)
    → IsTourTable node ts
    → IsTourTable node (update_tour j f ts)
update_tour-IsTourTable f j ts keeps v = record {
  distinct = update_tour-Distinct f keeps j ts v.distinct;
  bounded = λ h. omega (arith, length-update_tour j f ts, v.bounded h);
}

remove_tour-IsTourTable :
    {node : PtzNode} (j : ℕ) (ts : List Tour)
    → IsTourTable node ts
    → IsTourTable node (remove_tour j ts)
remove_tour-IsTourTable j ts v = record {
  distinct = remove_tour-Distinct j ts v.distinct;
  bounded = λ h. omega (arith, length-remove_tour j ts, v.bounded h);
}

Serves-changed {ℓ κ μ} :
    {A : Type ℓ} {B : Type κ} (P : B → Type μ) (f : A → B) (m : Handled A)
    → Serves (λ a. P (f a)) m
    → Serves P (changed f m)
Serves-changed P f (served a) h = h
Serves-changed P f (refused code e) h = tt
Serves-changed P f undefined h = tt

module _ (node : PtzNode) (req : PtzRequest) (ts : List Tour) (v : IsTourTable node ts) where
  abbrev Keeps : Handled (List Tour) → Type 0
  Keeps = Serves (IsTourTable node)

  create-IsTourTable : next_tour_number ts < 2 ^ 31 → Keeps (run create node req ts)
  unfolding run create_preset_tour
  create-IsTourTable small =
      let t = new_tour ts (req.body "Name") in
      let kept : (ltb 0 node.max_preset_tours && leb node.max_preset_tours (length ts)) ≡ false
          → IsTourTable node (ts ++ t ∷ []) =
        λ room. record {
          distinct = append-Distinct ts t v.distinct (tour_token-absent ts small);
          bounded = ground (arith, length-append ts (t ∷ []));
        } in
      Serves-changed _ _ (create_preset_tour node req ts) (
        Serves-bind _ (check_profile node req) _
          λ u checked. Serves-unless (λ r. IsTourTable node r.0) _ 3 _ _ kept)

  modify-IsTourTable : Keeps (run modify node req ts)
  unfolding run modify_preset_tour
  modify-IsTourTable = Serves-changed _ _ (modify_preset_tour node req ts) (
      Serves-bind _ (find_tour node req ts) _ λ j found.
        update_tour-IsTourTable (renamed (req.body "Name")) j ts (renamed-token (req.body "Name"))
          v)

  remove-IsTourTable : Keeps (run remove node req ts)
  unfolding run remove_preset_tour
  remove-IsTourTable =
      Serves-changed _ _ (remove_preset_tour node req ts)
        (Serves-bind _ (find_tour node req ts) _ λ j found. remove_tour-IsTourTable j ts v)

  operate-IsTourTable : Keeps (run operate node req ts)
  unfolding run operate_preset_tour
  operate-IsTourTable = Serves-changed _ _ (operate_preset_tour node req ts) (
      Serves-bind _ (check_profile node req) _ λ u checked.
        Serves-bind _ (need (req.body "PresetTourToken") _ _) _ λ token given.
          Serves-bind _ (need (req.body "Operation") _ _) _ λ operation named.
            Serves-bind _ (need (tour_index_by_token 0 token ts) _ _) _ λ j found.
              Serves-bind _ (need (operation_of node operation) _ _) _ λ x known.
                Serves-bind _ (need x.0 _ _) _
                  λ format configured. update_tour-IsTourTable (with_status x.2) j ts (λ t. refl) v)

-- A handler that changes the table of tours, whose numbers leave room for one more, keeps its tokens
-- apart and a positive limit on their number.
pub run-IsTourTable :
    (node : PtzNode) (req : PtzRequest) (call : TourCall) (ts ts' : List Tour)
    → IsTourTable node ts
    → next_tour_number ts < 2 ^ 31
    → run call node req ts ≡ served ts'
    → IsTourTable node ts'
run-IsTourTable node req call ts ts' v small h =
    Serves-elim (IsTourTable node) (run call node req ts) (kept call) h
  where
    kept : (call : TourCall) → Serves (IsTourTable node) (run call node req ts)
    kept create = create-IsTourTable node req ts v small
    kept modify = modify-IsTourTable node req ts v
    kept operate = operate-IsTourTable node req ts v
    kept remove = remove-IsTourTable node req ts v
