-- ===== src/Ptz/Presets/Set.antt =====
-- SetPreset of src/ptz_service.c.
use thingino_onvif.Base.Int.{ℤ, pos, negsuc, wrap32, equal_ℤ}
use thingino_onvif.Base.{
  ℕ, suc, Bool, true, false, ◌&&◌, ◌||◌, not, List, [], ◌∷◌, ◌++◌, Option, none, some, ◌==◌, ltb,
  if◌then◌else◌, Bytes, codes, length, ◌≡◌, refl, ap, some-eq_inj,
}
use thingino_onvif.Ptz.{
  PtzNode, PtzRequest, PtzFault, fault, action_failed, Handled, served, refused, undefined, ◌>>=◌,
  ◌>>◌, need, unless, no_ptz_profile, number_behind, Page,
}
use thingino_onvif.Text.Decimal.{print, scan_int}
use thingino_onvif.Text.Query.{equal_ignoring_case}
use thingino_onvif.Ptz.Presets.{
  Command, Preset, init_presets, labelled, missing_preset, preset_prefix, stored,
}

-- SetPreset. `UUID_LEN + 8` bytes hold the name.
abbrev pub name_size : ℕ
name_size = 44

-- Whether the first line that the command `is_moving` printed says so.
unfoldable pub is_moving : PtzNode → Option Bytes → Bool
unfolding scan_int wrap32
is_moving node line = elim node.is_moving [
  | none ↦ false
  | some command ↦ elim line [
    | none ↦ false
    | some s ↦ elim (scan_int s) [ none ↦ false | some (n, rest) ↦ equal_ℤ (wrap32 n) (pos 1) ]
  ]
]

unfoldable pub any_profile : Bytes → List (Option Bytes) → Bool
unfolding equal_ignoring_case
any_profile token [] = false
any_profile token (none ∷ names) = any_profile token names
any_profile token (some name ∷ names) = equal_ignoring_case name token || any_profile token names

unfoldable pub has_space : Bytes → Bool
has_space [] = false
has_space (c ∷ s) = c == b' ' || has_space s

unfoldable pub is_bad_name : Bytes → Bool
unfolding has_space
is_bad_name name = has_space name || length name == 0 || ltb 64 (length name)

-- Whether a preset with another number has the name.
unfoldable pub is_taken : Option ℤ → Bytes → List Preset → Bool
unfolding equal_ignoring_case
is_taken own name [] = false
is_taken own name (p ∷ ps) =
    (elim own [ none ↦ true | some n ↦ not (equal_ℤ p.number n) ]
      && equal_ignoring_case p.name name)
    || is_taken own name ps

unfoldable pub find_number : ℤ → List Preset → Option Preset
find_number n [] = none
find_number n (p ∷ ps) =
    let later = find_number n ps in if equal_ℤ p.number n then some p else later

unfoldable pub find_name : Bytes → List Preset → Option Preset
unfolding equal_ignoring_case
find_name name [] = none
find_name name (p ∷ ps) =
    let later = find_name name ps in if equal_ignoring_case p.name name then some p else later

abbrev pub invalid_name : PtzFault
invalid_name =
    fault "Sender" "ter:InvalidArgVal" "ter:InvalidPresetName" "Invalid preset name"
      "The preset name is either too long or contains invalid characters"

abbrev pub preset_exists : PtzFault
preset_exists =
    fault "Sender" "ter:InvalidArgVal" "ter:PresetExist" "Preset exists"
      "The requested name already exist for another preset"

abbrev pub own_or_made : Bytes → Option Bytes → Bytes
own_or_made uuid none = codes "Preset_" ++ uuid
own_or_made uuid (some s) = s

-- The name of a new preset; without one it is made from a fresh identifier.
unfoldable pub new_name : Bytes → Option Bytes → List Preset → Handled Bytes
unfolding is_bad_name is_taken stored
new_name uuid preset_name presets = do
  name ← stored name_size (own_or_made uuid preset_name)
  unless (is_bad_name name) 3 invalid_name
  unless (is_taken none name presets) 4 preset_exists
  served name

-- The number and the name of a preset that is set again; without a name it keeps its own.
unfoldable pub old_name : Bytes → Option Bytes → List Preset → Handled (ℤ × Bytes)
unfolding number_behind find_number is_bad_name is_taken stored
old_name preset_token preset_name presets = do
  n ← need (number_behind preset_prefix preset_token) 5 missing_preset
  p ← need (find_number n presets) 6 missing_preset
  kept ← stored name_size p.name
  name ← elim preset_name [ none ↦ served kept | some s ↦ stored name_size s ]
  unless (is_bad_name name) 7 invalid_name
  unless (is_taken (some n) name presets) 8 preset_exists
  served (n, name)

unfoldable pub chosen : Bytes → Option Bytes → Option Bytes → List Preset → Handled (ℤ × Bytes)
unfolding new_name old_name
chosen uuid none preset_name presets =
    new_name uuid preset_name presets >>= λ name. served (negsuc 0, name)
chosen uuid (some preset_token) preset_name presets = old_name preset_token preset_name presets

abbrev pub print_int : ℤ → Bytes
print_int (pos n) = print n
print_int (negsuc n) = b'-' ∷ print (suc n)

-- The token of the first preset with the name, in an array of 16 bytes; empty if there is none.
unfoldable pub token_out : Bytes → List Preset → Handled Bytes
unfolding find_name stored
token_out name presets = elim (find_name name presets) [
  | none ↦ served []
  | some p ↦ stored 16 (preset_prefix ++ print_int p.number)
]

abbrev unknown_profile : PtzFault
unknown_profile =
    fault "Sender" "ter:InvalidArgVal" "ter:NoProfile" "No profile"
      "The requested profile token does not exist"

abbrev pub is_new : Option Bytes → Bool
is_new none = true
is_new (some token) = false

-- What SetPreset sees of the world: the names of the profiles, the line that `is_moving` printed, a
-- fresh identifier, and the list of presets before and after its command.
pub record World : Type 0 where
  pub profiles : List (Option Bytes)
  pub moving : Option Bytes
  pub uuid : Bytes
  pub before : Option Bytes
  pub after : Option Bytes

-- The checks before the names are looked at.
unfoldable pub check_set_preset : PtzNode → PtzRequest → World → Handled (Unit {0})
unfolding any_profile is_moving
check_set_preset node req w = do
  profile_token ← need (req.body "ProfileToken") 2 unknown_profile
  unless (not (any_profile profile_token w.profiles)) 2 unknown_profile
  unless (is_moving node w.moving) 3 (
      fault "Receiver" "ter:Action" "ter:MovingPTZ" "Moving PTZ"
        "Preset cannot be set while PTZ unit is moving")
  unless (not req.has_profile_token) 1 unknown_profile
  unless (node.enable == 0) 2 no_ptz_profile

-- A new preset makes the list longer.
unfoldable pub check_room : Option Bytes → List Preset → List Preset → Handled (Unit {0})
check_room preset_token presets presets' =
    unless (is_new preset_token && length presets == length presets') 10 (
      fault "Receiver" "ter:Action" "ter:TooManyPresets" "Too many presets"
        "Maximum number of presets reached")

-- What is done before the command: the command that is run, and the name in it.
unfoldable pub prepare_set_preset : PtzNode → PtzRequest → World → Handled (Command × Bytes)
unfolding check_set_preset chosen init_presets
prepare_set_preset node req w = do
  check_set_preset node req w
  let presets = init_presets node w.before
  (number, name) ← chosen w.uuid (req.body "PresetToken") (req.body "PresetName") presets
  command ← need node.set_preset 9 (action_failed 9)
  served (labelled command number name, name)

-- The answer behind the command, from the new list of presets.
unfoldable pub answer_set_preset : PtzNode → PtzRequest → World → Bytes → Handled Page
unfolding init_presets check_room token_out
answer_set_preset node req w name = do
  let presets' = init_presets node w.after
  check_room (req.body "PresetToken") (init_presets node w.before) presets'
  token ← token_out name presets'
  served ("ptz_service_files/SetPreset.xml", ("%PRESET_TOKEN%", token) ∷ [])

-- A command that was run stays run, also where the answer is a fault.
abbrev pub ran_then :
    Handled (Command × Bytes) → (Bytes → Handled Page) → Option Command × Handled Page
ran_then (served (command, name)) answer = (some command, answer name)
ran_then (refused code e) answer = (none, refused code e)
ran_then undefined answer = (none, undefined)

-- The command that is run, if any, and the answer.
unfoldable pub set_preset : PtzNode → PtzRequest → World → Option Command × Handled Page
unfolding prepare_set_preset answer_set_preset
set_preset node req w = ran_then (prepare_set_preset node req w) (answer_set_preset node req w)

pub set_preset-eq-ran :
    (node : PtzNode) (req : PtzRequest) (w : World) (command : Command)
    → (set_preset node req w).0 ≡ some command
    → (name : Bytes) × (prepare_set_preset node req w ≡ served (command, name))
      × ((set_preset node req w).1 ≡ answer_set_preset node req w name)
unfolding set_preset
set_preset-eq-ran node req w command = go (prepare_set_preset node req w)
  where
    go :
        (m : Handled (Command × Bytes))
        → (ran_then m (answer_set_preset node req w)).0 ≡ some command
        → (name : Bytes) × (m ≡ served (command, name))
          × ((ran_then m (answer_set_preset node req w)).1 ≡ answer_set_preset node req w name)
    go (served (c, name)) h = (name, ap (λ (x : Command). served (x, name)) (some-eq_inj h), refl)
    go (refused code e) h = cc
    go undefined h = cc
