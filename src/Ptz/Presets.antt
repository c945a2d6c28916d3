-- ===== src/Ptz/Presets.antt =====
-- The presets of src/ptz_service.c: reading the list that the command `get_presets` prints, and the
-- handlers that go to a preset, set it and remove it, with those of the home position. A handler is
-- given what the commands print, and answers with the command that it runs and its page. The
-- coordinates of the list are not modelled here.
pub mod Set
pub mod Unique
pub mod Buffers
pub mod Goto
mod Tests
use thingino_onvif.Base.Int.{ℤ, pos, negsuc, wrap32, equal_ℤ}
use thingino_onvif.Base.{
  ℕ, zero, suc, ◌+◌, ◌-◌, Bool, true, false, ◌&&◌, ◌||◌, not, List, [], ◌∷◌, ◌++◌, Option, none,
  some, ◌==◌, ltb, leb, if◌then◌else◌, Bytes, String, codes, length, ◌≡◌, refl,
}
use thingino_onvif.Ptz.{
  PtzNode, PtzRequest, PtzFault, fault, action_failed, Handled, served, refused, undefined, ◌>>=◌,
  ◌>>◌, need, unless, no_token, no_ptz_profile, check_profile, number_behind, Page,
}
use thingino_onvif.Text.Decimal.{print, scan_int, skip_space, is_space}
use thingino_onvif.Text.Lines.{fgets_lines}
use thingino_onvif.Text.Query.{equal_ignoring_case}

-- The part of `preset_t` that the handlers below read.
pub record Preset : Type 0 where
  pub number : ℤ
  pub name : Bytes

-- What one line of the list says: the reading of the whole list stops at a line that begins with no
-- number, and passes over one that has no name.
pub data Line : Type 0 where
  unreadable : Line
  nameless : Line
  named : Preset → Line

abbrev without_commas : Bytes → Bytes
without_commas [] = []
without_commas (c ∷ s) = (if c == b',' then b' ' else c) ∷ without_commas s

-- `%s`: the bytes up to white space.
unfoldable pub word : Bytes → Bytes
unfolding is_space
word [] = []
word (c ∷ s) = let more = word s in if is_space c then [] else c ∷ more

abbrev preset_of_word : ℤ → Bytes → Line
preset_of_word n [] = nameless
preset_of_word n (c ∷ name) = named (record { number = wrap32 n; name = c ∷ name })

abbrev behind_number : ℤ → Bytes → Line
behind_number n [] = nameless
behind_number n (c ∷ s) = if c == b'=' then preset_of_word n (word (skip_space s)) else nameless

abbrev unless_blank : Bytes → Line
unless_blank [] = nameless
unless_blank (c ∷ s) = unreadable

-- `sscanf(out, "%d=%s %lf %lf %lf", …)`, less the coordinates
unfoldable pub read_line : Bytes → Line
unfolding scan_int word skip_space wrap32
read_line out = elim (scan_int (without_commas out)) [
  | none ↦ unless_blank (skip_space (without_commas out))
  | some (n, rest) ↦ behind_number n rest
]

unfoldable pub read_lines : List Bytes → List Preset
unfolding read_line
read_lines [] = []
read_lines (out ∷ lines) =
    let more = read_lines lines in
    elim (read_line out) [ unreadable ↦ [] | nameless ↦ more | named p ↦ p ∷ more ]

-- The list; `none` is a command that cannot be started.
unfoldable pub init_presets : PtzNode → Option Bytes → List Preset
unfolding fgets_lines read_lines
init_presets node listing = elim node.get_presets [
  | none ↦ []
  | some command ↦ elim listing [ none ↦ [] | some out ↦ read_lines (fgets_lines 1022 1022 out []) ]
]

-- A command that is run: its format, with the number and the name that it is given.
pub data Command : Type 0 where
  plain : Bytes → Command
  numbered : Bytes → ℤ → Command
  labelled : Bytes → ℤ → Bytes → Command

abbrev pub missing_preset : PtzFault
missing_preset = no_token "The requested preset token does not exist"

-- Writing a text, with its final zero byte, into an array.
unfoldable pub stored : ℕ → Bytes → Handled Bytes
stored size s = if ltb (length s) size then served s else undefined

abbrev pub given : Option Bytes → Handled Bytes
given none = undefined
given (some s) = served s

abbrev pub preset_prefix : Bytes
preset_prefix = codes "PresetToken_"

unfoldable pub any_number : ℤ → List Preset → Bool
any_number n [] = false
any_number n (p ∷ ps) = equal_ℤ p.number n || any_number n ps

abbrev goto_done : Page
goto_done = ("ptz_service_files/GotoPreset.xml", [])

abbrev goto_home : PtzNode → Handled (Command × Page)
goto_home node = do
  command ← need node.goto_home_position 3 (action_failed 3)
  served (plain command, goto_done)

unfoldable pub goto_number : PtzNode → Bytes → List Preset → Handled (Command × Page)
unfolding number_behind any_number
goto_number node preset_token presets = do
  preset_number ← need (number_behind preset_prefix preset_token) 3 missing_preset
  unless (not (any_number preset_number presets)) 4 missing_preset
  command ← need node.move_preset 5 (action_failed 5)
  served (numbered command preset_number, goto_done)

-- A null pointer is passed to `strcasecmp` where the token is missing.
unfoldable pub goto_preset : PtzNode → PtzRequest → Option Bytes → Handled (Command × Page)
unfolding check_profile goto_number init_presets equal_ignoring_case
goto_preset node req listing = do
  check_profile node req
  preset_token ← given (req.body "PresetToken")
  if equal_ignoring_case preset_token (codes "home")
      then goto_home node
      else goto_number node preset_token (init_presets node listing)

unfoldable pub goto_home_position : PtzNode → PtzRequest → Handled (Command × Page)
unfolding check_profile
goto_home_position node req = do
  check_profile node req
  command ← need node.goto_home_position 3 (action_failed 3)
  served (plain command, ("ptz_service_files/GotoHomePosition.xml", []))

unfoldable pub set_home_position : PtzNode → PtzRequest → Handled (Command × Page)
unfolding check_profile
set_home_position node req = do
  check_profile node req
  command ← need node.set_home_position 3 (action_failed 3)
  served (plain command, ("ptz_service_files/SetHomePosition.xml", []))

-- Here too a null pointer is read where the token is missing; the list is not looked at.
unfoldable pub remove_preset : PtzNode → PtzRequest → Handled (Command × Page)
unfolding check_profile number_behind
remove_preset node req = do
  check_profile node req
  preset_token ← given (req.body "PresetToken")
  preset_number ← need (number_behind preset_prefix preset_token) 3 missing_preset
  command ← need node.remove_preset 4 (action_failed 4)
  served (numbered command preset_number, ("ptz_service_files/RemovePreset.xml", []))
