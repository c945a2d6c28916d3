-- ===== src/Ptz/Tours/Promise.antt =====
-- What the handlers that change the tours of src/ptz_service.c promise of a map from tokens to names
-- and states.
use thingino_onvif.Base.{ℕ, ◌&&◌, List, [], ◌∷◌, Option, none, some, Bytes, codes, take, ltb, leb}
use thingino_onvif.Ptz.Tours.View.{Entry, TourMap, put, delete}
use thingino_onvif.Ptz.Tours.{
  Tour, text_or_empty, missing_tour, create_preset_tour, modify_preset_tour, operation_of,
  operate_preset_tour, remove_preset_tour,
}
use thingino_onvif.Ptz.{
  PtzNode, PtzRequest, PtzFault, fault, action_failed, Handled, served, refused, ◌>>=◌, ◌>>◌, need,
  unless, no_token, check_profile, undefined,
}

-- The four handlers that change the table, less their replies.
pub data TourCall : Type 0 where
  create modify operate remove : TourCall

abbrev pub changed {ℓ κ} : {A : Type ℓ} {B : Type κ} → (A → B) → Handled A → Handled B
changed f (served a) = served (f a)
changed f (refused code e) = refused code e
changed f undefined = undefined

unfoldable pub run : TourCall → PtzNode → PtzRequest → List Tour → Handled (List Tour)
run create node req ts = changed (λ r. r.0) (create_preset_tour node req ts)
run modify node req ts = changed (λ r. r.0) (modify_preset_tour node req ts)
run operate node req ts = changed (λ r. r.0) (operate_preset_tour node req ts)
run remove node req ts = changed (λ r. r.0) (remove_preset_tour node req ts)

abbrev pub renamed_entry : Option Bytes → Entry → Entry
renamed_entry none e = e
renamed_entry (some []) e = e
renamed_entry (some (c ∷ name)) (old, status) = (take 63 (c ∷ name), status)

-- The checks and the change of the map that a request with a token stands for.
abbrev pub on_entry {ℓ} :
    {B : Type ℓ} → PtzNode → PtzRequest → TourMap → (Bytes → Entry → Handled B) → Handled B
on_entry node req m k = do
  check_profile node req
  token ← need (req.body "PresetTourToken") 3 missing_tour
  e ← need (m token) 4 missing_tour
  k token e

abbrev pub unknown_operation : PtzFault
unknown_operation =
    fault "Sender" "ter:InvalidArgVal" "ter:ActionNotSupported" "Not supported"
      "Operation not supported"

-- What a call promises: `count` is the number of tours, and `token` that of a new tour.
unfoldable pub promised : TourCall → PtzNode → PtzRequest → ℕ → Bytes → TourMap → Handled TourMap
unfolding check_profile operation_of
promised create node req count token m = do
  check_profile node req
  unless (ltb 0 node.max_preset_tours && leb node.max_preset_tours count) 3 (action_failed 3)
  served (put token (take 63 (text_or_empty (req.body "Name")), codes "Idle") m)
promised modify node req count token m =
    on_entry node req m λ old e. served (put old (renamed_entry (req.body "Name") e) m)
promised remove node req count token m = on_entry node req m λ old e. served (delete old m)
promised operate node req count token m = do
  check_profile node req
  old ← need (req.body "PresetTourToken") 3 (no_token "Missing parameters")
  operation ← need (req.body "Operation") 3 (no_token "Missing parameters")
  (name, status) ← need (m old) 4 missing_tour
  (command, code, next) ← need (operation_of node operation) 8 unknown_operation
  format ← need command code (action_failed code)
  served (put old (name, next) m)
