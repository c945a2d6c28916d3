-- ===== src/Imaging.antt =====
-- The imaging service, src/imaging_service.c, and the bridge to the streamer, src/prudynt_bridge.c: the
-- configured sources, what handlers do to them and to the world, and the lookups that they share.
pub mod Config
pub mod Ends
pub mod Builder
pub mod Reports
pub mod Focus
pub mod Presets
pub mod Streamer
pub mod Settings
mod Tests
use thingino_onvif.Base.{
  ℕ, suc, Bool, true, false, List, [], ◌∷◌, Option, none, some, if◌then◌else◌, Bytes, String, codes,
  ltb, length, get_elem?, set,
}
use thingino_onvif.Text.Query.{equal_ignoring_case}
use thingino_onvif.Xml.{Document, get_element}
pub use thingino_onvif.Imaging.Config.{
  Floats, FloatValue, StringList, ModeLevel, ExposureConfig, FocusConfig, FocusState, unknown, idle,
  moving, FocusMove, FocusContinuous, FocusMoveConfig, PresetEntry, WhiteBalanceConfig,
  IrcutAutoAdjustment, IrcutMode, unspecified, on, off, auto, ImagingEntry,
}

-- A fault of this service; the handler returns -1.
pub data ImagingFault : Type 0 where
  fault : (rec_send subcode subcode_ex reason detail : String) → ImagingFault

-- The configured sources, the commands that were run, and what was written to the streamer's pipe, the
-- last one first.
pub record Camera (Float : Type 0) : Type 0 where
  pub imaging : List (ImagingEntry Float)
  pub commands : List Bytes
  pub payloads : List Bytes

-- A step of a handler leaves a world, also where it stops with a fault. An array that is overrun
-- leaves its behaviour undefined.
pub data Outcome (Float : Type 0) (A : Type 0) : Type 0 where
  served : A → Camera Float → Outcome Float A
  refused : ImagingFault → Camera Float → Outcome Float A
  undefined : Outcome Float A

abbrev pub Handler : Type 0 → Type 0 → Type 0
Handler Float A = Camera Float → Outcome Float A

infixl 5 ◌>>=◌ ◌>>◌
abbrev pub ◌>>=◌ : {Float A B : Type 0} → Handler Float A → (A → Handler Float B) → Handler Float B
◌>>=◌ m k w = elim (m w) [ served a v ↦ k a v | refused f v ↦ refused f v | undefined ↦ undefined ]

abbrev pub ◌>>◌ : {Float B : Type 0} → Handler Float (Unit {0}) → Handler Float B → Handler Float B
m >> k = m >>= λ _. k

abbrev pub return : {Float A : Type 0} → A → Handler Float A
return a w = served a w

abbrev pub refuse : {Float A : Type 0} → ImagingFault → Handler Float A
refuse f w = refused f w

abbrev pub need : {Float A : Type 0} → Option A → ImagingFault → Handler Float A
need none f w = refused f w
need (some a) f w = served a w

abbrev pub unless : {Float : Type 0} → Bool → ImagingFault → Handler Float (Unit {0})
unless true f w = refused f w
unless false f w = served tt w

-- A template with its parameters.
abbrev pub Page : Type 0
Page = String × List (String × Bytes)

abbrev pub no_imaging : ImagingFault
no_imaging =
    fault "Receiver" "ter:ActionNotSupported" "ter:NoImagingForSource" "Imaging service disabled"
      "This device is not configured with any imaging sources"

abbrev pub no_source : ImagingFault
no_source =
    fault "Sender" "ter:InvalidArgVal" "ter:NoSource" "Unknown video source"
      "The requested VideoSourceToken does not exist"

-- A text that is there and not empty.
abbrev pub filled : Option Bytes → Option Bytes
filled none = none
filled (some []) = none
filled (some (c ∷ s)) = some (c ∷ s)

abbrev pub or_text : Option Bytes → Bytes → Bytes
or_text none d = d
or_text (some s) d = s

unfoldable pub is_source : {Float : Type 0} → Bytes → ImagingEntry Float → Bool
unfolding equal_ignoring_case
is_source token e = elim e.video_source_token [
  | none ↦ false
  | some t ↦ equal_ignoring_case token t
]

abbrev pub next : Option ℕ → Option ℕ
next none = none
next (some i) = some (suc i)

-- The position of the first source with the token; without a token it is the first source.
unfoldable pub find_entry_by : {Float : Type 0} → Bytes → List (ImagingEntry Float) → Option ℕ
unfolding is_source
find_entry_by token [] = none
find_entry_by token (e ∷ es) =
    let later = next (find_entry_by token es) in if is_source token e then some 0 else later

unfoldable pub find_imaging_entry :
    {Float : Type 0} → Option Bytes → List (ImagingEntry Float) → Option ℕ
unfolding find_entry_by
find_imaging_entry token [] = none
find_imaging_entry token (e ∷ es) = elim (filled token) [
  | none ↦ some 0
  | some t ↦ find_entry_by t (e ∷ es)
]

abbrev pub is_none {ℓ} : {A : Type ℓ} → List A → Bool
is_none [] = true
is_none (x ∷ xs) = false

unfoldable pub ensure_imaging_available : {Float : Type 0} → Handler Float (Unit {0})
ensure_imaging_available w = unless (is_none w.imaging) no_imaging w

abbrev pub entry_at :
    {Float : Type 0} → ℕ → Option (ImagingEntry Float) → Handler Float (ℕ × ImagingEntry Float)
entry_at i none w = undefined
entry_at i (some e) w = served (i, e) w

abbrev pub source_at : {Float : Type 0} → Option ℕ → Handler Float (ℕ × ImagingEntry Float)
source_at none w = refused no_source w
source_at (some i) w = entry_at i (get_elem? w.imaging i) w

-- The source that a request names, with its position.
unfoldable pub require_imaging_entry :
    {Float : Type 0} → Option Bytes → Handler Float (ℕ × ImagingEntry Float)
require_imaging_entry token w = source_at (find_imaging_entry token w.imaging) w

-- A change of a source.
abbrev pub store : {Float : Type 0} → ℕ → ImagingEntry Float → Handler Float (Unit {0})
store i e w = served tt (record w { imaging = set w.imaging i e })

-- The commands behind one that is run; an empty one is not.
abbrev pub ran : Option Bytes → List Bytes → List Bytes
ran none commands = commands
ran (some c) commands = c ∷ commands

unfoldable pub execute_backend_command : {Float : Type 0} → Option Bytes → Handler Float (Unit {0})
execute_backend_command command w =
    served tt (record w { commands = ran (filled command) w.commands })

abbrev pub command_size : ℕ
command_size = 1024

-- What snprintf prints into the buffer of a command; it is not run if it is cut off.
unfoldable pub fits_command : Bytes → Option Bytes
fits_command command = if ltb (length command) command_size then some command else none

-- Whether a command could be built; it is run then.
unfoldable pub run_built : {Float : Type 0} → Option Bytes → Handler Float Bool
unfolding execute_backend_command
run_built none = return false
run_built (some command) = execute_backend_command (some command) >> return true

abbrev pub source_token : Document → Option Bytes
source_token doc = get_element doc (codes "VideoSourceToken") (codes "Body")
