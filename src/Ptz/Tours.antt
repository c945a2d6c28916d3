-- ===== src/Ptz/Tours.antt =====
-- The preset tours of src/ptz_service.c: the table `g_tours` and the handlers that read and change
-- it. A handler is given the table as `tours_ensure_loaded` leaves it, and answers with the table
-- that `tours_save` writes, if it saves one.
pub mod Store
pub mod Segments
pub mod Kept
pub mod Read
pub mod View
pub mod Promise
pub mod Refine
pub mod Tokens
pub mod Pieces
pub mod Reload
mod Tests
use thingino_onvif.Base.Int.{ℤ, pos, pos_part, ◌+ℤ◌, ltb_ℤ, wrap32}
use thingino_onvif.Base.{
  ℕ, zero, suc, ◌+◌, Bool, true, false, ◌&&◌, ◌||◌, not, List, [], ◌∷◌, ◌++◌, Option, none, some,
  ◌==◌, ltb, leb, if◌then◌else◌, Bytes, String, codes, equal, length, take, drop,
}
use thingino_onvif.Ptz.{
  PtzNode, PtzRequest, PtzFault, fault, action_failed, Handled, served, refused, ◌>>=◌, ◌>>◌, need,
  unless, no_token, check_profile, number_behind, Page,
}
use thingino_onvif.Text.Decimal.{print, scan_int}
use thingino_onvif.Text.Query.{equal_ignoring_case}
use thingino_onvif.Text.Topic.{starts_with}

-- `preset_tour_t`, whose texts are cut to 63, 63 and 15 bytes.
pub record Tour : Type 0 where
  pub token : Bytes
  pub name : Bytes
  pub status : Bytes

-- `tour_index_by_token`, from index `i` on
unfoldable pub tour_index_by_token : ℕ → Bytes → List Tour → Option ℕ
unfolding equal
tour_index_by_token i token [] = none
tour_index_by_token i token (t ∷ ts) =
    let later = tour_index_by_token (suc i) token ts in
    if equal t.token token then some i else later

unfoldable pub update_tour : ℕ → (Tour → Tour) → List Tour → List Tour
update_tour i f [] = []
update_tour zero f (t ∷ ts) = f t ∷ ts
update_tour (suc i) f (t ∷ ts) = t ∷ update_tour i f ts

-- The loop that moves the later tours down by one.
unfoldable pub remove_tour : ℕ → List Tour → List Tour
remove_tour i [] = []
remove_tour zero (t ∷ ts) = ts
remove_tour (suc i) (t ∷ ts) = t ∷ remove_tour i ts

abbrev pub token_prefix : Bytes
token_prefix = codes "PresetTourToken_"

unfoldable pub tour_number : Bytes → Option ℤ
unfolding number_behind
tour_number token = number_behind token_prefix token

abbrev pub higher : ℤ → Option ℤ → ℤ
higher m none = m
higher m (some n) = if ltb_ℤ m n then n else m

unfoldable pub highest_number : ℤ → List Tour → ℤ
unfolding tour_number
highest_number m [] = m
highest_number m (t ∷ ts) = highest_number (higher m (tour_number t.token)) ts

-- The numbers are not negative, as the highest starts at 0; one above the last `int` would overflow.
unfoldable pub next_tour_number : List Tour → ℕ
unfolding highest_number
next_tour_number ts = pos_part (highest_number (pos 0) ts) + 1

abbrev pub tour_token : ℕ → Bytes
tour_token n = take 63 (token_prefix ++ print n)

abbrev pub shown_status : Bytes → Bytes
shown_status [] = codes "Idle"
shown_status (c ∷ s) = c ∷ s

abbrev pub text_or_empty : Option Bytes → Bytes
text_or_empty none = []
text_or_empty (some s) = s

abbrev pub tour_parameters : Tour → List (String × Bytes)
tour_parameters t =
    ("%TOKEN%", t.token) ∷ ("%NAME%", t.name) ∷ ("%STATUS%", shown_status t.status) ∷ []

abbrev tour_pages : List Tour → List Page
tour_pages [] = []
tour_pages (t ∷ ts) =
    ("ptz_service_files/GetPresetTours_item.xml", tour_parameters t) ∷ tour_pages ts

unfoldable pub get_preset_tours : PtzNode → PtzRequest → List Tour → Handled (List Page)
unfolding check_profile
get_preset_tours node req ts = do
  check_profile node req
  served (
      ("ptz_service_files/GetPresetTours_1.xml", [])
      ∷ (tour_pages ts ++ ("ptz_service_files/GetPresetTours_3.xml", []) ∷ []))

abbrev pub missing_tour : PtzFault
missing_tour = no_token "The requested preset tour token does not exist"

-- The checks of the handlers that are about one tour: its index.
unfoldable pub find_tour : PtzNode → PtzRequest → List Tour → Handled ℕ
unfolding check_profile tour_index_by_token
find_tour node req ts = do
  check_profile node req
  token ← need (req.body "PresetTourToken") 3 missing_tour
  need (tour_index_by_token 0 token ts) 4 missing_tour

abbrev pub tour_at : ℕ → List Tour → Option Tour
tour_at i [] = none
tour_at zero (t ∷ ts) = some t
tour_at (suc i) (t ∷ ts) = tour_at i ts

unfoldable pub get_preset_tour : PtzNode → PtzRequest → List Tour → Handled Page
unfolding find_tour
get_preset_tour node req ts = do
  idx ← find_tour node req ts
  t ← need (tour_at idx ts) 4 missing_tour
  served ("ptz_service_files/GetPresetTour.xml", tour_parameters t)

unfoldable pub get_preset_tour_options : PtzNode → PtzRequest → Handled Page
unfolding check_profile
get_preset_tour_options node req = do
  check_profile node req
  served ("ptz_service_files/GetPresetTourOptions.xml", [])

abbrev pub new_tour : List Tour → Option Bytes → Tour
new_tour ts name = record {
  token = tour_token (next_tour_number ts);
  name = take 63 (text_or_empty name);
  status = codes "Idle";
}

-- A positive limit on the number of tours is kept.
unfoldable pub create_preset_tour : PtzNode → PtzRequest → List Tour → Handled (List Tour × Page)
unfolding check_profile next_tour_number
create_preset_tour node req ts = do
  check_profile node req
  unless (ltb 0 node.max_preset_tours && leb node.max_preset_tours (length ts)) 3 (action_failed 3)
  let t = new_tour ts (req.body "Name")
  served (ts ++ t ∷ [], ("ptz_service_files/CreatePresetTour.xml", ("%TOKEN%", t.token) ∷ []))

-- A name that is missing or empty changes nothing.
abbrev pub renamed : Option Bytes → Tour → Tour
renamed none t = t
renamed (some []) t = t
renamed (some (c ∷ name)) t = record t { name = take 63 (c ∷ name) }

unfoldable pub modify_preset_tour : PtzNode → PtzRequest → List Tour → Handled (List Tour × Page)
unfolding find_tour
modify_preset_tour node req ts = do
  idx ← find_tour node req ts
  served (
    update_tour idx (renamed (req.body "Name")) ts,
    ("ptz_service_files/ModifyPresetTour.xml", []),
  )

-- An operation in any mix of capital and small letters: its command and code, and the new status.
unfoldable pub operation_of : PtzNode → Bytes → Option (Option Bytes × ℕ × Bytes)
unfolding equal_ignoring_case
operation_of node operation =
    if equal_ignoring_case operation (codes "Start")
    then some (node.preset_tour_start, 5, codes "Touring")
    else if equal_ignoring_case operation (codes "Stop")
    then some (node.preset_tour_stop, 6, codes "Idle")
    else if equal_ignoring_case operation (codes "Pause")
    then some (node.preset_tour_pause, 7, codes "Paused")
    else none

abbrev pub with_status : Bytes → Tour → Tour
with_status status t = record t { status = status }

-- The command that is run: its format, and the tour's token.
abbrev pub Command : Type 0
Command = Bytes × Bytes

unfoldable pub operate_preset_tour :
    PtzNode → PtzRequest → List Tour → Handled (List Tour × Command × Page)
unfolding check_profile tour_index_by_token operation_of
operate_preset_tour node req ts = do
  check_profile node req
  token ← need (req.body "PresetTourToken") 3 (no_token "Missing parameters")
  operation ← need (req.body "Operation") 3 (no_token "Missing parameters")
  idx ← need (tour_index_by_token 0 token ts) 4 missing_tour
  (command, code, status) ← need (operation_of node operation) 8 (
      fault "Sender" "ter:InvalidArgVal" "ter:ActionNotSupported" "Not supported"
        "Operation not supported")
  format ← need command code (action_failed code)
  served (
    update_tour idx (with_status status) ts,
    (format, token),
    ("ptz_service_files/OperatePresetTour.xml", []),
  )

unfoldable pub remove_preset_tour : PtzNode → PtzRequest → List Tour → Handled (List Tour × Page)
unfolding find_tour
remove_preset_tour node req ts = do
  idx ← find_tour node req ts
  served (remove_tour idx ts, ("ptz_service_files/RemovePresetTour.xml", []))
