-- ===== src/Ptz/Tours/Read.antt =====
-- GetPresetTour of src/ptz_service.c, behind CreatePresetTour.
use thingino_onvif.Base.{
  ℕ, zero, suc, ◌^◌, ◌<◌, ◌≤◌, All, List, [], ◌∷◌, ◌++◌, ◌≡◌, refl, sym, ap, ◌∙◌, some, Bytes,
  codes, take, length, equal_refl, ◌&&◌, ltb, leb,
}
use thingino_onvif.Ptz.Tours.Pieces.{IsStorable}
use thingino_onvif.Ptz.Tours.Reload.{tours_ensure_loaded-tours_save}
use thingino_onvif.Ptz.Tours.Store.{tours_save, tours_ensure_loaded}
use thingino_onvif.Ptz.Tours.Refine.{find_tour-view, IsFirst-token}
use thingino_onvif.Ptz.Tours.Promise.{changed, on_entry}
use thingino_onvif.Ptz.Tours.Tokens.{tour_token-absent}
use thingino_onvif.Ptz.Tours.View.{Entry, entry, view, IsFirst, view-append}
use thingino_onvif.Ptz.Tours.{
  Tour, tour_at, shown_status, get_preset_tour, create_preset_tour, new_tour, text_or_empty,
  next_tour_number,
}
use thingino_onvif.Ptz.{
  PtzNode, PtzRequest, Handled, served, refused, ◌>>◌, unless, check_profile, action_failed,
  undefined, Page,
}

tour_at-IsFirst :
    (token : Bytes) (j : ℕ) (ts : List Tour) (u : Tour)
    → IsFirst token j ts u
    → tour_at j ts ≡ some u
tour_at-IsFirst token j [] u h = absurd h
tour_at-IsFirst token zero (t ∷ ts) u (here, is) = ap some is
tour_at-IsFirst token (suc j) (t ∷ ts) u (other, h) = tour_at-IsFirst token j ts u h

changed-id {ℓ} : {A : Type ℓ} (m : Handled A) → changed (λ a. a) m ≡ m
changed-id (served a) = refl
changed-id (refused code e) = refl
changed-id undefined = refl

abbrev pub tour_page : Bytes → Entry → Page
tour_page token (name, status) = (
  "ptz_service_files/GetPresetTour.xml",
  ("%TOKEN%", token) ∷ ("%NAME%", name) ∷ ("%STATUS%", shown_status status) ∷ [],
)

get_preset_tour-view :
    (node : PtzNode) (req : PtzRequest) (ts : List Tour)
    → get_preset_tour node req ts
      ≡ on_entry node req (view ts) λ token e. served (tour_page token e)
unfolding get_preset_tour
get_preset_tour-view node req ts =
    sym (changed-id (get_preset_tour node req ts))
    ∙ find_tour-view (λ r. r) node req ts _ _
        λ token j u first. rw (tour_at-IsFirst token j ts u first) (
          ap (λ (token' : Bytes). served (tour_page token' (entry u)))
            (IsFirst-token token j ts u first))

last_served {ℓ} :
    {A : Type ℓ} (c d : Handled (Unit {0})) (x y : A) → (c >> (d >> served x)) ≡ served y → x ≡ y
last_served (refused code e) d x y h = cc
last_served undefined d x y h = cc
last_served (served u) (refused code e) x y h = cc
last_served (served u) undefined x y h = cc
last_served (served u) (served v) x y h = cc

-- A tour that CreatePresetTour made and saved is found by GetPresetTour, which loads the file again,
-- under the token of the reply, with the name of the request, cut to 63 bytes, and in the state Idle, if
-- the numbers of the tours leave room for one more, and the new table can be read back: its texts fit
-- the arrays, no token or state is empty, no text has a quotation mark or is one of the words Token,
-- token, name and status, and its file has at most 2^20 bytes.
pub get_preset_tour-create_preset_tour :
    (node : PtzNode) (req : PtzRequest) (ts ts' : List Tour) (page : Page)
    → next_tour_number ts < 2 ^ 31
    → create_preset_tour node req ts ≡ served (ts', page)
    → All IsStorable ts'
    → length (tours_save ts') ≤ 2 ^ 20
    → (token : Bytes) × (page ≡ ("ptz_service_files/CreatePresetTour.xml", ("%TOKEN%", token) ∷ []))
      × ((req' : PtzRequest)
          → check_profile node req' ≡ served tt
          → req'.body "PresetTourToken" ≡ some token
          → get_preset_tour node req' (tours_ensure_loaded (some (tours_save ts')))
            ≡ served (tour_page token (take 63 (text_or_empty (req.body "Name")), codes "Idle")))
unfolding create_preset_tour
get_preset_tour-create_preset_tour node req ts ts' page small h storable size =
    let t = new_tour ts (req.body "Name") in
    let made : (◌≡◌ {A = List Tour × Page}
        (ts ++ t ∷ [], ("ptz_service_files/CreatePresetTour.xml", ("%TOKEN%", t.token) ∷ []))
        (ts', page)) =
      last_served (check_profile node req)
        (unless (ltb 0 node.max_preset_tours && leb node.max_preset_tours (length ts)) 3
          (action_failed 3))
        _ _ h in
    let here : view (ts ++ t ∷ []) t.token ≡ some (entry t) =
      view-append ts t t.token (tour_token-absent ts small) ∙ rw (equal_refl t.token) in
    (
      t.token,
      sym (ap (λ r. r.1) made),
      λ req' checked named.
          ap (get_preset_tour node req')
            (tours_ensure_loaded-tours_save ts' storable size ∙ sym (ap (λ r. r.0) made))
          ∙ get_preset_tour-view node req' (ts ++ t ∷ [])
          ∙ rw (checked, named, here),
    )
