-- ===== src/Events/Requests/Address.antt =====
-- The address in the reply to a subscription leads back to that subscription.
use thingino_onvif.Base.Int.{pos}
use thingino_onvif.Base.{
  ℕ, ◌≤◌, Bool, true, false, [], ◌∷◌, ◌++◌, some, ◌==◌, ◌≡◌, refl, ap, ◌∙◌, arith, if◌then◌else◌,
  Bytes, codes, All, All-append, append_assoc,
}
use thingino_onvif.Events.Requests.Manage.{all_digits, in_range, checked_sub_id}
use thingino_onvif.Events.Requests.{pass, port_text, subscription_address}
use thingino_onvif.Events.State.{ServiceContext, Request}
use thingino_onvif.Text.Decimal.RoundTrip.{IsDigit, print-IsDigit, print-ne-nil, atoi-print}
use thingino_onvif.Text.Decimal.{print, is_digit}
use thingino_onvif.Text.Query.Parameter.{get_from_query_string_digits}
use thingino_onvif.Text.Tokens.{Lacks}

-- The query string of an address, as a web server cuts it off.
abbrev pub query_part : Bytes → Bytes
query_part [] = []
query_part (c ∷ s) = if c == b'?' then s else query_part s

query_part-append : (p rest : Bytes) → Lacks b'?' p → query_part (p ++ b'?' ∷ rest) ≡ rest
query_part-append [] rest h = refl
query_part-append (c ∷ p) rest (hc, h) = rw hc (query_part-append p rest h)

digits-Lacks : (v : Bytes) → All IsDigit v → Lacks b'?' v
digits-Lacks [] h = tt
digits-Lacks (c ∷ v) (d, h) = (unfold is_digit in ground arith, digits-Lacks v h)

port_text-Lacks : (port : ℕ) → Lacks b'?' (port_text port)
port_text-Lacks port = by_test (port == 80)
  where
    by_test : (b : Bool) → Lacks b'?' (if b then [] else b':' ∷ print port)
    by_test true = tt
    by_test false = (refl, digits-Lacks (print port) (print-IsDigit port))

-- The query string in a subscription's address is its identifier as the parameter `sub`, for a device
-- whose own address has no question mark.
pub query_part-subscription_address :
    (ctx : ServiceContext) (id : ℕ)
    → Lacks b'?' ctx.my_address
    → query_part (subscription_address ctx id) ≡ codes "sub=" ++ print id
unfolding subscription_address
query_part-subscription_address ctx id h =
    let path = codes "/onvif/events_service" in
    let port = port_text ctx.port in
    let front = ctx.my_address ++ (port ++ path) in
    let regroup : subscription_address ctx id
        ≡ (codes "http://" ++ front) ++ b'?' ∷ (codes "sub=" ++ print id) =
      simp append_assoc in
    ap query_part regroup
    ∙ query_part-append (codes "http://" ++ front) (codes "sub=" ++ print id) (
        All-append _ (codes "http://") front (ground arith) (
          All-append _ ctx.my_address (port ++ path) h
            (All-append _ port path (port_text-Lacks ctx.port) (ground arith))))

digits-all_digits : (v : Bytes) → All IsDigit v → all_digits v ≡ true
unfolding all_digits
digits-all_digits [] h = refl
digits-all_digits (c ∷ v) (d, h) = rw (d, digits-all_digits v h)

in_range-pos : (n limit : ℕ) → 1 ≤ n → n ≤ limit → in_range limit (pos n) ≡ some n
unfolding in_range
in_range-pos n limit h k = ground arith

-- A request whose query string is an identifier passes the checks with that identifier.
pub checked_sub_id-print :
    (req : Request) (id : ℕ)
    → 1 ≤ id
    → id ≤ 65535
    → req.query_string ≡ some (codes "sub=" ++ print id)
    → checked_sub_id req ≡ pass id
unfolding checked_sub_id
checked_sub_id-print req id low high q = rw (
  q,
  get_from_query_string_digits (print id) (print-ne-nil id) (print-IsDigit id),
  digits-all_digits (print id) (print-IsDigit id),
  atoi-print id (omega arith),
  in_range-pos id 65535 low high,
)
