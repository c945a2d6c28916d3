-- ===== src/Text/Query/Parameter.antt =====
-- A parameter of digits, as the server prints it into an address, is found again.
use thingino_onvif.Base.{
  true, false, List, [], ◌∷◌, ◌++◌, some, ◌≡◌, ◌≢◌, refl, arith, Bytes, codes, All, ap,
}
use thingino_onvif.Text.Decimal.RoundTrip.{IsDigit}
use thingino_onvif.Text.Decimal.{is_digit}
use thingino_onvif.Text.Query.{
  is_query_sep, equal_ignoring_case, find_parameter, get_from_query_string,
}
use thingino_onvif.Text.Tokens.{strtok, strsep, strtok_whole, strsep_whole, Lacks}

digits-Lacks_eq : (v : Bytes) → All IsDigit v → Lacks b'=' v
digits-Lacks_eq [] h = tt
digits-Lacks_eq (c ∷ v) (d, h) = (unfold is_digit in ground arith, digits-Lacks_eq v h)

digits-no_query_sep : (v : Bytes) → All IsDigit v → All (λ c. is_query_sep c ≡ false) v
digits-no_query_sep [] h = tt
digits-no_query_sep (c ∷ v) (d, h) = (unfold is_digit in ground arith, digits-no_query_sep v h)

one_piece :
    (v : Bytes)
    → All IsDigit v
    → strsep is_query_sep (codes "sub=" ++ v) [] ≡ (codes "sub=" ++ v) ∷ []
unfolding strsep
one_piece v h = strsep_whole is_query_sep v (codes "sub=") (digits-no_query_sep v h)

two_tokens :
    (v : Bytes) → v ≢ [] → All IsDigit v → strtok b'=' (codes "sub=" ++ v) [] ≡ codes "sub" ∷ v ∷ []
unfolding strtok
two_tokens v ne h = ap (◌∷◌ (codes "sub")) (strtok_whole b'=' v ne (digits-Lacks_eq v h))

found :
    (par p var v : Bytes) (ps more : List Bytes)
    → strtok b'=' p [] ≡ var ∷ v ∷ more
    → equal_ignoring_case par var ≡ true
    → find_parameter par (p ∷ ps) ≡ some v
unfolding find_parameter
found par p var v ps more e same = rw (e, find_parameter, same)

-- In a query string that is one parameter `sub` with a value of digits, one digit at least, that
-- value is found.
pub get_from_query_string_digits :
    (v : Bytes)
    → v ≢ []
    → All IsDigit v
    → get_from_query_string (some (codes "sub=" ++ v)) (codes "sub") ≡ some v
unfolding get_from_query_string
get_from_query_string_digits v ne h = rw (one_piece v h) (
    found (codes "sub") (codes "sub=" ++ v) (codes "sub") v [] [] (two_tokens v ne h)
      (unfold equal_ignoring_case in refl))
