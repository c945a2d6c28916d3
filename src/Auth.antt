-- ===== src/Auth.antt =====
-- How `main` of src/onvif_simple_server.c decides on a request: the WS-Security token in the SOAP
-- header, the methods that need none, and the answer. The library functions for base64 and SHA-1
-- are parameters; `b64_decode` gives the bytes of the nonce buffer that `nonce_size` counts.
pub mod Decision
mod Tests
use thingino_onvif.Base.{
  ℕ, zero, suc, ◌+◌, Bool, true, false, ◌&&◌, ◌||◌, not, List, [], ◌∷◌, ◌++◌, Option, none, some,
  ◌==◌, ltb, if◌then◌else◌, Bytes, String, codes, equal, length,
}
use thingino_onvif.Dispatch.{Advanced, is_named, Action, dispatch_onvif_method}

-- The part of `service_ctx` that is read here.
pub record Account : Type 0 where
  pub username : Option Bytes
  pub password : Bytes

-- The elements of the SOAP header that `get_element` finds by name.
abbrev pub SoapHeader : Type 0
SoapHeader = String → Option Bytes

unfoldable pub is_any : List String → Bytes → Bool
unfolding is_named
is_any [] method = false
is_any (m ∷ ms) method = is_named m method || is_any ms method

abbrev pub device_pre_auth : List String
device_pre_auth =
    "GetSystemDateAndTime" ∷ "GetWsdlUrl" ∷ "GetServices" ∷ "GetServiceCapabilities"
    ∷ "GetCapabilities" ∷ "GetHostname" ∷ "GetEndpointReference" ∷ []

abbrev pub events_pre_auth : List String
events_pre_auth =
    "GetServiceCapabilities" ∷ "GetEventProperties" ∷ "CreatePullPointSubscription" ∷ "PullMessages"
    ∷ "Renew" ∷ "Unsubscribe" ∷ "SetSynchronizationPoint" ∷ []

-- The methods that need no token. The source has this test twice, once for a device without a user.
unfoldable pub pre_auth : Bytes → Bytes → Bool
unfolding is_any
pre_auth service method =
    is_named "device_service" service && is_any device_pre_auth method
    || is_named "events_service" service && is_any events_pre_auth method
    || is_named "ptz_service" service && is_named "GetServiceCapabilities" method
    || is_named "imaging_service" service && is_named "GetServiceCapabilities" method

-- The build option HAVE_SYNOLOGY_COMPAT, and the setting that goes with it.
pub record Synology : Type 0 where
  pub synology_compat : Bool
  pub adv_synology_nvr : ℕ

-- CreateProfile for a recorder of Synology is answered whatever the authentication says.
unfoldable pub is_synthetic : Synology → Bytes → Bytes → Bool
is_synthetic syn service method =
    syn.synology_compat
    && syn.adv_synology_nvr == 1
    && is_named "media_service" service
    && is_named "CreateProfile" method

-- `else auth_error = code`
unfoldable pub or_error : ℕ → Option Bytes → ℕ → ℕ
or_error code none auth_error = code
or_error code (some element) auth_error = auth_error

module _ (b64_decode sha1 b64_encode : Bytes → Bytes) where
  -- The digest of a nonce, a date and a password.
  unfoldable pub digest_of : Bytes → Bytes → Bytes → Bytes
  digest_of nonce created password = b64_encode (sha1 (b64_decode nonce ++ (created ++ password)))

  unfoldable pub digest_error : Bytes → Account → (username password nonce created : Bytes) → ℕ
  unfolding digest_of equal
  digest_error user account username password nonce created =
      if ltb 128 (length (b64_decode nonce) + length created + length account.password)
      then 10
      else if not (equal user username)
          || not (equal password (digest_of nonce created account.password))
      then 10
      else 0

  -- The token's four elements; a later one that is missing overrides the error of an earlier one.
  unfoldable pub token_error :
      Bytes → Account → (username password nonce created : Option Bytes) → ℕ
  unfolding digest_error or_error
  token_error user account (some username) (some password) (some nonce) (some created) =
      digest_error user account username password nonce created
  token_error user account username password nonce created =
      or_error 4 created (or_error 3 nonce (or_error 2 password (or_error 1 username 0)))

  -- The error for a device with a user.
  unfoldable pub header_error : Bytes → Account → SoapHeader → ℕ
  unfolding token_error
  header_error user account header = elim (header "Security") [
    | none ↦ 11
    | some security ↦ elim (header "UsernameToken") [
      | none ↦ 11
      | some token ↦
          token_error user account (header "Username") (header "Password") (header "Nonce")
            (header "Created")
    ]
  ]

  unfoldable pub auth_error : Account → SoapHeader → Bytes → Bytes → ℕ
  unfolding header_error pre_auth
  auth_error account header service method =
      if pre_auth service method
      then 0
      else elim account.username [ none ↦ 12 | some user ↦ header_error user account header ]

  -- What the client gets: a challenge for an empty body, a fault for one that has no method, a profile
  -- that does not exist, 401, or what the dispatcher does.
  pub data Answer : Type 0 where
    challenge malformed synthetic_profile unauthorized : Answer
    dispatched : Option Action → Answer

  unfoldable pub answer :
      Synology
      → Advanced
      → Account
      → SoapHeader
      → (service : Bytes) → (input_size : ℕ) → (method : Option Bytes) → Answer
  unfolding auth_error is_synthetic
  answer syn adv account header service zero method = challenge
  answer syn adv account header service (suc n) none = malformed
  answer syn adv account header service (suc n) (some method) =
      if is_synthetic syn service method
      then synthetic_profile
      else if auth_error account header service method == 0
      then dispatched (dispatch_onvif_method adv (some service) (some method))
      else unauthorized
