-- ===== src/Auth/Decision.antt =====
-- Who gets past the authentication: exactly the requests for a free method, and those with the token
-- of the configured user.
use thingino_onvif.Base.{
  ◌+◌, ◌≤◌, Bool, true, false, ◌&&◌, ◌||◌, List, [], ◌∷◌, String, Option, none, some, ◌≡◌, ◌≢◌, ◌⊎◌,
  ◌↔◌, inl, inr, refl, sym, ◌∙◌, arith, Bytes, equal, length, Bool-cases, Option-cases, equal_iff,
  ap,
}
use thingino_onvif.Auth.{
  Account, SoapHeader, pre_auth, or_error, digest_of, digest_error, token_error, header_error,
  auth_error, is_any, events_pre_auth, device_pre_auth,
}
use thingino_onvif.Dispatch.{is_named}

-- The methods that need no token, each with its service.
abbrev pub free_methods : List (String × String)
free_methods =
    ("device_service", "GetSystemDateAndTime")
    ∷ ("device_service", "GetWsdlUrl")
    ∷ ("device_service", "GetServices")
    ∷ ("device_service", "GetServiceCapabilities")
    ∷ ("device_service", "GetCapabilities")
    ∷ ("device_service", "GetHostname")
    ∷ ("device_service", "GetEndpointReference")
    ∷ ("events_service", "GetServiceCapabilities")
    ∷ ("events_service", "GetEventProperties")
    ∷ ("events_service", "CreatePullPointSubscription")
    ∷ ("events_service", "PullMessages")
    ∷ ("events_service", "Renew")
    ∷ ("events_service", "Unsubscribe")
    ∷ ("events_service", "SetSynchronizationPoint")
    ∷ ("ptz_service", "GetServiceCapabilities")
    ∷ ("imaging_service", "GetServiceCapabilities")
    ∷ []

abbrev pub is_listed : List (String × String) → Bytes → Bytes → Bool
is_listed [] service method = false
is_listed ((s, m) ∷ rest) service method =
    is_named s service && is_named m method || is_listed rest service method

-- The methods of one service, in front of a list.
abbrev of_service : String → List String → List (String × String) → List (String × String)
of_service s [] rest = rest
of_service s (m ∷ ms) rest = (s, m) ∷ of_service s ms rest

is_listed-of_service :
    (s : String) (ms : List String) (rest : List (String × String)) (service method : Bytes)
    → is_listed (of_service s ms rest) service method
      ≡ (is_named s service && is_any ms method || is_listed rest service method)
unfolding is_any
is_listed-of_service s [] rest service method = ground arith
is_listed-of_service s (m ∷ ms) rest service method =
    ground (arith, is_listed-of_service s ms rest service method)

pre_auth-is_listed :
    (service method : Bytes) → pre_auth service method ≡ is_listed free_methods service method
unfolding pre_auth
pre_auth-is_listed service method =
    let last =
      is_listed-of_service "imaging_service" ("GetServiceCapabilities" ∷ []) [] service method in
    let ptz =
      is_listed-of_service "ptz_service" ("GetServiceCapabilities" ∷ [])
        (of_service "imaging_service" ("GetServiceCapabilities" ∷ []) []) service method in
    let events =
      is_listed-of_service "events_service" events_pre_auth
        (of_service "ptz_service" ("GetServiceCapabilities" ∷ [])
          (of_service "imaging_service" ("GetServiceCapabilities" ∷ []) []))
        service method in
    let device =
      is_listed-of_service "device_service" device_pre_auth
        (of_service "events_service" events_pre_auth (
          of_service "ptz_service" ("GetServiceCapabilities" ∷ [])
            (of_service "imaging_service" ("GetServiceCapabilities" ∷ []) [])))
        service method in
    sym (device ∙ rw (events, ptz, last) (unfold is_any in ground arith))

module _ (b64_decode sha1 b64_encode : Bytes → Bytes) where
  -- A header that proves knowledge of the password of the configured user: it has a token with the
  -- user's name, a nonce, a date, and the digest of nonce, date and password, of 128 bytes at most.
  pub record Authorized (account : Account) (header : SoapHeader) : Type 0 where
    pub user : Bytes
    pub password : Bytes
    pub nonce : Bytes
    pub created : Bytes
    pub configured : account.username ≡ some user
    pub has_security : header "Security" ≢ none
    pub has_token : header "UsernameToken" ≢ none
    pub has_username : header "Username" ≡ some user
    pub has_password : header "Password" ≡ some password
    pub has_nonce : header "Nonce" ≡ some nonce
    pub has_created : header "Created" ≡ some created
    pub fits : length (b64_decode nonce) + length created + length account.password ≤ 128
    pub digest : password ≡ digest_of b64_decode sha1 b64_encode nonce created account.password

  token_error_zero :
      (user : Bytes) (account : Account) (u p n c : Option Bytes)
      → token_error b64_decode sha1 b64_encode user account u p n c ≡ 0
      → (username : Bytes) × (password : Bytes) × (nonce : Bytes) × (created : Bytes) × (u
          ≡ some username)
        × (p ≡ some password)
        × (n ≡ some nonce)
        × (c ≡ some created)
        × (digest_error b64_decode sha1 b64_encode user account username password nonce created ≡ 0)
  unfolding token_error or_error
  token_error_zero user account (some u) (some p) (some n) (some c) h =
      (u, p, n, c, refl, refl, refl, refl, h)
  token_error_zero user account none p n c h = absurd (missing p n c h)
    where
      missing : (p n c : Option Bytes) → or_error 4 c (or_error 3 n (or_error 2 p 1)) ≢ 0
      missing p n none e = cc
      missing p none (some c) e = cc
      missing none (some n) (some c) e = cc
      missing (some p) (some n) (some c) e = cc
  token_error_zero user account (some u) none n c h = absurd (missing n c h)
    where
      missing : (n c : Option Bytes) → or_error 4 c (or_error 3 n 2) ≢ 0
      missing n none e = cc
      missing none (some c) e = cc
      missing (some n) (some c) e = cc
  token_error_zero user account (some u) (some p) none none h = cc
  token_error_zero user account (some u) (some p) none (some c) h = cc
  token_error_zero user account (some u) (some p) (some n) none h = cc

  digest_error_zero :
      (user : Bytes) (account : Account) (username password nonce created : Bytes)
      → digest_error b64_decode sha1 b64_encode user account username password nonce created ≡ 0
      → (length (b64_decode nonce) + length created + length account.password ≤ 128)
        × (equal user username ≡ true)
        × (equal password (digest_of b64_decode sha1 b64_encode nonce created account.password)
            ≡ true)
  unfolding digest_error
  digest_error_zero user account username password nonce created h = ground arith

  header_error-Authorized :
      (user : Bytes) (account : Account) (header : SoapHeader)
      → account.username ≡ some user
      → header_error b64_decode sha1 b64_encode user account header ≡ 0
      → Authorized account header
  unfolding header_error
  header_error-Authorized user account header known h = elim (Option-cases (header "Security")) [
    | inl none_here ↦ absurd (cc (rw (none_here, header_error) at h))
    | inr (security, s) ↦ elim (Option-cases (header "UsernameToken")) [
      | inl none_here ↦ absurd (cc (rw (s, none_here, header_error) at h))
      | inr (token, t) ↦
          let (u, p, n, c, eu, ep, en, ec, z) =
            token_error_zero user account (header "Username") (header "Password") (header "Nonce")
              (header "Created") (rw (s, t, header_error) at h) in
          let (fits, same_user, same_digest) = digest_error_zero user account u p n c z in
          record {
            user = user;
            password = p;
            nonce = n;
            created = c;
            configured = known;
            has_security = λ e. absurd (cc);
            has_token = λ e. absurd (cc);
            has_username = eu ∙ ap some (sym ((equal_iff user u).0 same_user));
            has_password = ep;
            has_nonce = en;
            has_created = ec;
            fits = fits;
            digest = (equal_iff _ _).0 same_digest;
          }
    ]
  ]

  Authorized-auth_error :
      (account : Account) (header : SoapHeader) (service method : Bytes)
      → Authorized account header
      → auth_error b64_decode sha1 b64_encode account header service method ≡ 0
  unfolding auth_error header_error token_error digest_error
  Authorized-auth_error account header service method a =
      elim (Bool-cases (pre_auth service method)) [
        | inl free ↦ rw free refl
        | inr guarded ↦ elim (Option-cases (header "Security")) [
          | inl none_here ↦ absurd (a.has_security none_here)
          | inr (security, s) ↦ elim (Option-cases (header "UsernameToken")) [
            | inl none_here ↦ absurd (a.has_token none_here)
            | inr (token, t) ↦
                let same = (equal_iff a.user a.user).1 refl in
                let digest = (equal_iff _ _).1 a.digest in
                let fits = a.fits in
                rw
                  (
                    guarded, a.configured, header_error, s, t, a.has_username, a.has_password,
                    a.has_nonce, a.has_created, same, digest,
                  )
                  (ground arith)
          ]
        ]
      ]

  by_user :
      (account : Account) (header : SoapHeader) (service method : Bytes) (o : Option Bytes)
      → account.username ≡ o
      → pre_auth service method ≡ false
      → auth_error b64_decode sha1 b64_encode account header service method ≡ 0
      → Authorized account header
  unfolding auth_error
  by_user account header service method none e guarded h = absurd (cc (rw (guarded, e) at h))
  by_user account header service method (some user) e guarded h =
      header_error-Authorized user account header e (rw (guarded, e) at h)

  pub auth_error_iff :
      (account : Account) (header : SoapHeader) (service method : Bytes)
      → (auth_error b64_decode sha1 b64_encode account header service method ≡ 0)
        ↔ ((is_listed free_methods service method ≡ true) ⊎ Authorized account header)
  auth_error_iff account header service method =
      rw (sym (pre_auth-is_listed service method)) (forward, backward)
    where
      forward :
          auth_error b64_decode sha1 b64_encode account header service method ≡ 0
          → (pre_auth service method ≡ true) ⊎ Authorized account header
      forward h = elim (Bool-cases (pre_auth service method)) [
        | inl free ↦ inl free
        | inr guarded ↦ inr (by_user account header service method account.username refl guarded h)
      ]

      backward :
          (pre_auth service method ≡ true) ⊎ Authorized account header
          → auth_error b64_decode sha1 b64_encode account header service method ≡ 0
      backward (inl free) = unfold auth_error in rw free refl
      backward (inr a) = Authorized-auth_error account header service method a
