-- ===== src/Ptz.antt =====
-- The PTZ service, src/ptz_service.c: the checks that its handlers share, and its parts.
pub mod Numbers
pub mod Serves
pub mod Tours
pub mod Presets
pub mod Moves
use thingino_onvif.Base.Int.{ℤ, wrap32}
use thingino_onvif.Base.{
  ℕ, Bool, true, false, not, List, ◌≡◌, refl, Option, none, some, ◌==◌, Bytes, String, length, drop,
  if◌then◌else◌,
}
use thingino_onvif.Text.Decimal.{scan_int}
use thingino_onvif.Text.Topic.{starts_with}

-- What the handlers read of `ptz_node_t`; a command is a format string, and may be a null pointer. A limit
-- on the tours that is negative limits nothing, as 0 does, and is 0 here.
pub record PtzNode : Type 0 where
  pub enable : ℕ
  pub get_presets : Option Bytes
  pub move_preset : Option Bytes
  pub set_preset : Option Bytes
  pub remove_preset : Option Bytes
  pub goto_home_position : Option Bytes
  pub set_home_position : Option Bytes
  pub is_moving : Option Bytes
  pub max_preset_tours : ℕ
  pub preset_tour_start : Option Bytes
  pub preset_tour_stop : Option Bytes
  pub preset_tour_pause : Option Bytes

-- A request: whether the body has an element `ProfileToken`, and the texts of its elements.
pub record PtzRequest : Type 0 where
  pub has_profile_token : Bool
  pub body : String → Option Bytes

-- A fault of this service, less the service's name.
pub data PtzFault : Type 0 where
  fault : (rec_send subcode subcode_ex reason detail : String) → PtzFault
  action_failed : ℕ → PtzFault

-- A handler stops at its first failed check, with the negative of a code, or serves a template. A
-- null pointer that is read or an array that is overrun leaves its behaviour undefined.
pub data Handled {ℓ} (A : Type ℓ) : Type ℓ where
  served : A → Handled A
  refused : ℕ → PtzFault → Handled A
  undefined : Handled A

infixl 5 ◌>>=◌ ◌>>◌
abbrev pub ◌>>=◌ {ℓ κ} : {A : Type ℓ} {B : Type κ} → Handled A → (A → Handled B) → Handled B
served a >>= f = f a
refused code f >>= g = refused code f
undefined >>= g = undefined

abbrev pub ◌>>◌ {ℓ} : {B : Type ℓ} → Handled (Unit {0}) → Handled B → Handled B
m >> k = m >>= λ _. k

abbrev pub need {ℓ} : {A : Type ℓ} → Option A → ℕ → PtzFault → Handled A
need none code f = refused code f
need (some a) code f = served a

abbrev pub unless : Bool → ℕ → PtzFault → Handled (Unit {0})
unless true code f = refused code f
unless false code f = served tt

-- Inversion of a bind that is served.
pub >>=-eq-served {ℓ κ} :
    {A : Type ℓ} {B : Type κ} (m : Handled A) (f : A → Handled B) {b : B}
    → (m >>= f) ≡ served b
    → (a : A) × (m ≡ served a) × (f a ≡ served b)
>>=-eq-served (served a) f h = (a, refl, h)
>>=-eq-served (refused code e) f h = cc
>>=-eq-served undefined f h = cc

pub need-eq-served {ℓ} :
    {A : Type ℓ} (o : Option A) (code : ℕ) (f : PtzFault) {a : A}
    → need o code f ≡ served a
    → o ≡ some a
need-eq-served none code f h = cc
need-eq-served (some a) code f h = cc

abbrev pub no_profile : PtzFault
no_profile =
    fault "Sender" "ter:InvalidArgVal" "ter:NoProfile" "No profile"
      "The requested profile token ProfileToken does not exist"

abbrev pub no_ptz_profile : PtzFault
no_ptz_profile =
    fault "Sender" "ter:InvalidArgVal" "ter:NoPTZProfile" "No PTZ profile"
      "The requested profile token does not reference a PTZ configuration"

abbrev pub no_token : String → PtzFault
no_token detail = fault "Sender" "ter:InvalidArgVal" "ter:NoToken" "No token" detail

-- The two checks at the start of the handlers.
unfoldable pub check_profile : PtzNode → PtzRequest → Handled (Unit {0})
check_profile node req = do
  unless (not req.has_profile_token) 1 no_profile
  unless (node.enable == 0) 2 no_ptz_profile

-- A template with its parameters.
abbrev pub Page : Type 0
Page = String × List (String × Bytes)

-- `sscanf(token, prefix "%d", &n)`
unfoldable pub number_behind : Bytes → Bytes → Option ℤ
unfolding scan_int starts_with
number_behind prefix token =
    if starts_with prefix token
    then elim (scan_int (drop (length prefix) token)) [
      | none ↦ none
      | some (n, rest) ↦ some (wrap32 n)
    ]
    else none
