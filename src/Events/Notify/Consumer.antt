-- ===== src/Events/Notify/Consumer.antt =====
-- Where a notification is sent to: parse_reference_url of src/onvif_notify_server.c, with the port that
-- send_notify starts from and the sizes of its arrays.
pub mod Written
use thingino_onvif.Base.Int.{ℤ, pos, negsuc}
use thingino_onvif.Base.{
  ℕ, zero, suc, Bool, true, false, ◌&&◌, ◌||◌, not, List, [], ◌∷◌, ◌++◌, Option, none, some, ◌==◌,
  ltb, leb, if◌then◌else◌, Bytes, codes, length, drop,
}
use thingino_onvif.Text.Decimal.{strtol}
use thingino_onvif.Text.Topic.{starts_with}

infixl 5 ◌>>=◌
abbrev pub ◌>>=◌ : {A B : Type 0} → Option A → (A → Option B) → Option B
none >>= k = none
some a >>= k = k a

-- What is behind the first "://".
unfoldable pub find_authority : Bytes → Option Bytes
unfolding starts_with
find_authority [] = none
find_authority (c ∷ s) =
    let later = find_authority s in
    if starts_with (codes "://") (c ∷ s) then some (drop 3 (c ∷ s)) else later

-- The bytes in front of the first separator, and the text from the separator on.
unfoldable pub cut_at : ℕ → Bytes → Bytes × Option Bytes
cut_at sep [] = ([], none)
cut_at sep (c ∷ s) =
    let later = cut_at sep s in if c == sep then ([], some (c ∷ s)) else (c ∷ later.0, later.1)

abbrev in_port_range : ℤ → Option ℕ
in_port_range (pos n) = if ltb 0 n && leb n 65535 then some n else none
in_port_range (negsuc n) = none

-- The text from the colon on; without a colon the port is the one that is given.
unfoldable pub reference_port : Option Bytes → ℕ → Option ℕ
unfolding strtol
reference_port none given = some given
reference_port (some []) given = none
reference_port (some (c ∷ port)) given =
    if length port == 0 || leb 8 (length port) then none else in_port_range (strtol port)

unfoldable pub reference_page : Option Bytes → ℕ → Option Bytes
reference_page none page_len = if ltb page_len 2 then none else some (codes "/")
reference_page (some path) page_len = if leb page_len (length path) then none else some path

unfoldable pub reference_host : Bytes → ℕ → Option Bytes
reference_host host host_len =
    if length host == 0 || leb host_len (length host) then none else some host

-- Host, port and page; none where the code returns -1.
unfoldable pub parse_reference_url :
    Bytes → (host_len page_len port : ℕ) → Option (Bytes × ℕ × Bytes)
unfolding find_authority cut_at reference_port reference_page reference_host
parse_reference_url reference host_len page_len port = do
  authority ← find_authority reference
  let (front, path) = cut_at b'/' authority
  let (name, port_part) = cut_at b':' front
  host ← reference_host name host_len
  port_out ← reference_port port_part port
  page ← reference_page path page_len
  some (host, port_out, page)

unfoldable pub notify_port : Bytes → ℕ
unfolding starts_with
notify_port reference = if starts_with (codes "https") reference then 443 else 80

unfoldable pub notify_target : Bytes → Option (Bytes × ℕ × Bytes)
unfolding parse_reference_url notify_port
notify_target reference = parse_reference_url reference 1024 1024 (notify_port reference)
