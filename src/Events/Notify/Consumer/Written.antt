-- ===== src/Events/Notify/Consumer/Written.antt =====
-- References to a consumer, written from their parts and read.
use thingino_onvif.Base.{
  ℕ, ◌<◌, ◌≤◌, [], ◌∷◌, ◌++◌, Option, none, some, Bytes, codes, length, All, All-append, append-nil,
  ◌≡◌, ◌≢◌, refl, arith,
}
use thingino_onvif.Events.Notify.Consumer.{
  find_authority, cut_at, reference_port, reference_page, reference_host, parse_reference_url,
  notify_port, notify_target,
}
use thingino_onvif.Ptz.Numbers.{print-length_le}
use thingino_onvif.Text.Decimal.{print, is_digit}
use thingino_onvif.Text.Decimal.RoundTrip.{IsDigit, print-IsDigit, print-ne-nil, strtol-print}
use thingino_onvif.Text.Tokens.{Lacks}
use thingino_onvif.Text.Topic.{starts_with}

find_authority-append :
    (scheme rest : Bytes)
    → Lacks b':' scheme
    → find_authority (scheme ++ (codes "://" ++ rest)) ≡ some rest
unfolding find_authority starts_with
find_authority-append [] rest h = refl
find_authority-append (c ∷ scheme) rest (hc, h) =
    ground (arith, find_authority-append scheme rest h)

cut_at-append :
    (sep : ℕ) (p rest : Bytes) → Lacks sep p → cut_at sep (p ++ sep ∷ rest) ≡ (p, some (sep ∷ rest))
unfolding cut_at
cut_at-append sep [] rest h = ground arith
cut_at-append sep (c ∷ p) rest (hc, h) = rw (hc, cut_at-append sep p rest h)

cut_at_whole : (sep : ℕ) (p : Bytes) → Lacks sep p → cut_at sep p ≡ (p, none)
unfolding cut_at
cut_at_whole sep [] h = refl
cut_at_whole sep (c ∷ p) (hc, h) = rw (hc, cut_at_whole sep p h)

-- A part that is there begins with its separator.
abbrev pub part_text : ℕ → Option Bytes → Bytes
part_text sep none = []
part_text sep (some s) = sep ∷ s

abbrev headed : ℕ → Option Bytes → Option Bytes
headed sep none = none
headed sep (some s) = some (sep ∷ s)

cut_at-part_text :
    (sep : ℕ) (p : Bytes) (part : Option Bytes)
    → Lacks sep p
    → cut_at sep (p ++ part_text sep part) ≡ (p, headed sep part)
cut_at-part_text sep p none h = rw append-nil (cut_at_whole sep p h)
cut_at-part_text sep p (some s) h = cut_at-append sep p s h

abbrev pub printed : Option ℕ → Option Bytes
printed none = none
printed (some n) = some (print n)

abbrev pub IsPort : Option ℕ → Type 0
IsPort none = Unit
IsPort (some n) = (1 ≤ n) × (n ≤ 65535)

abbrev pub port_or : Option ℕ → ℕ → ℕ
port_or none given = given
port_or (some n) given = n

digits-Lacks : (v : Bytes) → All IsDigit v → Lacks b'/' v
digits-Lacks [] h = tt
digits-Lacks (c ∷ v) (d, h) = (unfold is_digit in ground arith, digits-Lacks v h)

port-Lacks : (port : Option ℕ) → Lacks b'/' (part_text b':' (printed port))
port-Lacks none = tt
port-Lacks (some n) = (refl, digits-Lacks (print n) (print-IsDigit n))

length-pos : (s : Bytes) → s ≢ [] → 0 < length s
length-pos [] ne = absurd (ne refl)
length-pos (c ∷ s) ne = omega arith

reference_port-printed :
    (port : Option ℕ) (given : ℕ)
    → IsPort port
    → reference_port (headed b':' (printed port)) given ≡ some (port_or port given)
unfolding reference_port
reference_port-printed none given h = refl
reference_port-printed (some n) given (low, high) =
    let short : length (print n) ≤ 5 = print-length_le n 4 (omega arith) in
    let some_digit = length-pos (print n) (print-ne-nil n) in
    rw (strtol-print n (omega arith)) (ground arith)

abbrev pub page_text : Option Bytes → Bytes
page_text none = codes "/"
page_text (some s) = b'/' ∷ s

reference_page-headed :
    (path : Option Bytes) (n : ℕ)
    → 2 ≤ n
    → length (page_text path) < n
    → reference_page (headed b'/' path) n ≡ some (page_text path)
unfolding reference_page
reference_page-headed none n h k = ground arith
reference_page-headed (some s) n h k = ground arith

reference_host_fits :
    (host : Bytes) (n : ℕ) → host ≢ [] → length host < n → reference_host host n ≡ some host
unfolding reference_host
reference_host_fits host n ne h = let some_byte = length-pos host ne in ground arith

-- A reference to a consumer.
pub record Reference : Type 0 where
  pub scheme : Bytes
  pub host : Bytes
  pub port : Option ℕ
  pub path : Option Bytes

abbrev pub reference_text : Reference → Bytes
reference_text r =
    r.scheme
    ++ (codes "://" ++ ((r.host ++ part_text b':' (printed r.port)) ++ part_text b'/' r.path))

-- The parts are free of the separators behind them, and the host and the page fit their arrays.
pub record IsReference (r : Reference) : Type 0 where
  pub scheme_lacks_colon : Lacks b':' r.scheme
  pub host_lacks_colon : Lacks b':' r.host
  pub host_lacks_slash : Lacks b'/' r.host
  pub host_there : r.host ≢ []
  pub host_fits : length r.host < 1024
  pub port_in_range : IsPort r.port
  pub page_fits : length (page_text r.path) < 1024

-- The text of a reference to a consumer is read as its host, its port, or the usual one of its scheme
-- where it has none, and its page, or the root where it has none, if its scheme and its host are free
-- of the separators behind them, the host is not empty, the port is between 1 and 65535, and the host
-- and the page fit their arrays.
pub notify_target-reference_text :
    (r : Reference)
    → IsReference r
    → notify_target (reference_text r)
      ≡ some (r.host, port_or r.port (notify_port (reference_text r)), page_text r.path)
unfolding notify_target parse_reference_url
notify_target-reference_text r h =
    let front = r.host ++ part_text b':' (printed r.port) in
    let front-Lacks : Lacks b'/' front =
      All-append _ r.host (part_text b':' (printed r.port)) h.host_lacks_slash
        (port-Lacks r.port) in
    rw (
      find_authority-append r.scheme (front ++ part_text b'/' r.path) h.scheme_lacks_colon,
      cut_at-part_text b'/' front r.path front-Lacks,
      cut_at-part_text b':' r.host (printed r.port) h.host_lacks_colon,
      reference_host_fits r.host 1024 h.host_there h.host_fits,
      reference_port-printed r.port (notify_port (reference_text r)) h.port_in_range,
      reference_page-headed r.path 1024 (omega arith) h.page_fits,
    )
