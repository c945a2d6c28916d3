-- ===== src/Ptz/Tours/Segments.antt =====
-- The saved tours of src/ptz_service.c as the pieces between their quotation marks, and what the
-- searches of the reader find in such a text.
use thingino_onvif.Base.{
  ℕ, false, List, [], ◌∷◌, ◌++◌, ◌≡◌, refl, ◌∙◌, arith, Option, none, some, if◌then◌else◌, Bytes,
  codes, equal, equal_refl, All, append_assoc, append-nil,
}
use thingino_onvif.Ptz.Tours.Store.{quoted, strstr, strchr, break_quote, value_behind}
use thingino_onvif.Text.Tokens.{Lacks}
use thingino_onvif.Text.Topic.{starts_with}

-- The pieces with a quotation mark between each two.
abbrev pub joined : Bytes → List Bytes → Bytes
joined s [] = s
joined s (v ∷ vs) = s ++ b'"' ∷ joined v vs

abbrev pub IsPlain : Bytes → Type 0
IsPlain = Lacks b'"'

-- The pieces from the first quoted one on that is `w`; the last piece is not quoted.
unfoldable pub find_piece : Bytes → List Bytes → Option (List Bytes)
unfolding equal
find_piece w [] = none
find_piece w (v ∷ []) = none
find_piece w (v ∷ (v' ∷ vs)) =
    let later = find_piece w (v' ∷ vs) in if equal v w then some (v ∷ (v' ∷ vs)) else later

abbrev pub marked : Option (List Bytes) → Option Bytes
marked none = none
marked (some []) = none
marked (some (v ∷ vs)) = some (b'"' ∷ joined v vs)

-- A needle that begins with a quotation mark does not begin inside a piece.
strstr_plain :
    (needle s rest : Bytes)
    → IsPlain s
    → strstr (b'"' ∷ needle) (s ++ rest) ≡ strstr (b'"' ∷ needle) rest
unfolding strstr starts_with
strstr_plain needle [] rest h = refl
strstr_plain needle (c ∷ s) rest (hc, h) = ground (arith, strstr_plain needle s rest h)

-- A quoted word against a quoted piece.
starts_with_piece :
    (w v rest : Bytes)
    → IsPlain w
    → IsPlain v
    → starts_with (w ++ b'"' ∷ []) (v ++ b'"' ∷ rest) ≡ equal v w
unfolding starts_with equal
starts_with_piece [] [] rest hw hv = refl
starts_with_piece [] (d ∷ v) rest hw (hd, hv) = ground arith
starts_with_piece (c ∷ w) [] rest (hc, hw) hv = ground arith
starts_with_piece (c ∷ w) (d ∷ v) rest (hc, hw) (hd, hv) =
    ground (arith, starts_with_piece w v rest hw hv)

-- A quoted word against a last piece.
starts_with_last : (w v : Bytes) → IsPlain v → starts_with (w ++ b'"' ∷ []) v ≡ false
unfolding starts_with
starts_with_last [] [] hv = refl
starts_with_last [] (d ∷ v) (hd, hv) = ground arith
starts_with_last (c ∷ w) [] hv = refl
starts_with_last (c ∷ w) (d ∷ v) (hd, hv) = ground (arith, starts_with_last w v hv)

strstr-none : (needle s : Bytes) → IsPlain s → strstr (b'"' ∷ needle) s ≡ none
unfolding strstr starts_with
strstr-none needle s h = rw append-nil at (strstr_plain needle s [] h)

-- `strstr` for a quoted word finds the first quoted piece that is the word.
pub strstr-joined :
    (w s : Bytes) (vs : List Bytes)
    → IsPlain w
    → IsPlain s
    → All IsPlain vs
    → strstr (quoted w) (joined s vs) ≡ marked (find_piece w vs)
unfolding strstr find_piece
strstr-joined w s [] hw hs h = strstr-none (w ++ b'"' ∷ []) s hs
strstr-joined w s (v ∷ []) hw hs (hv, h) =
    strstr_plain (w ++ b'"' ∷ []) s (b'"' ∷ v) hs
    ∙ rw (starts_with_last w v hv) (strstr-none (w ++ b'"' ∷ []) v hv)
strstr-joined w s (v ∷ (v' ∷ vs)) hw hs (hv, h) =
    strstr_plain (w ++ b'"' ∷ []) s (b'"' ∷ joined v (v' ∷ vs)) hs
    ∙ rw (starts_with_piece w v (joined v' vs) hw hv)
        (ground (arith, strstr-joined w v (v' ∷ vs) hw hv h))

strchr-append : (b : ℕ) (s rest : Bytes) → Lacks b s → strchr b (s ++ rest) ≡ strchr b rest
unfolding strchr
strchr-append b [] rest h = refl
strchr-append b (c ∷ s) rest (hc, h) = ground (arith, strchr-append b s rest h)

break_quote-plain :
    (cur v rest : Bytes) → IsPlain v → break_quote cur (v ++ b'"' ∷ rest) ≡ some (cur ++ v, rest)
unfolding break_quote
break_quote-plain cur [] rest h = rw append-nil
break_quote-plain cur (c ∷ v) rest (hc, h) =
    rw hc (break_quote-plain (cur ++ c ∷ []) v rest h ∙ rw append_assoc)

-- The value of a key is the piece after the next.
pub value_behind-joined :
    (w v v' : Bytes) (vs : List Bytes)
    → Lacks b':' w
    → IsPlain v
    → value_behind (b'"' ∷ joined w (codes ": " ∷ (v ∷ (v' ∷ vs)))) ≡ some (v, joined v' vs)
unfolding value_behind strchr break_quote
value_behind-joined w v v' vs hw hv =
    rw (strchr-append b':' w (b'"' ∷ joined (codes ": ") (v ∷ (v' ∷ vs))) hw, value_behind)
      (break_quote-plain [] v (joined v' vs) hv)

find_piece-skip :
    (w v : Bytes) (vs : List Bytes) → equal v w ≡ false → find_piece w (v ∷ vs) ≡ find_piece w vs
unfolding find_piece
find_piece-skip w v [] h = refl
find_piece-skip w v (v' ∷ vs) h = rw h

-- Pieces that are not the word are passed over.
pub find_piece-append :
    (w : Bytes) (us vs : List Bytes)
    → All (λ v. equal v w ≡ false) us
    → find_piece w (us ++ vs) ≡ find_piece w vs
find_piece-append w [] vs h = refl
find_piece-append w (u ∷ us) vs (hu, h) =
    find_piece-skip w u (us ++ vs) hu ∙ find_piece-append w us vs h

pub find_piece_here :
    (w v : Bytes) (vs : List Bytes) → find_piece w (w ∷ (v ∷ vs)) ≡ some (w ∷ (v ∷ vs))
unfolding find_piece
find_piece_here w v vs = rw (equal_refl w)

pub find_piece_nil : (w : Bytes) → find_piece w [] ≡ none
unfolding find_piece
find_piece_nil w = refl
