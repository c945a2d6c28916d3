-- ===== src/Ptz/Tours/Store.antt =====
-- The file of the tours: `tours_save` and `tours_ensure_loaded` of src/ptz_service.c. A file that
-- cannot be opened is `none`; a text has no zero byte.
use thingino_onvif.Base.{
  ℕ, zero, suc, ◌^◌, ◌||◌, List, [], ◌∷◌, ◌++◌, Option, none, some, ◌==◌, ltb, if◌then◌else◌, Bytes,
  codes, length, take, ◌≡◌, refl,
}
use thingino_onvif.Ptz.Tours.{Tour, shown_status}
use thingino_onvif.Text.Topic.{starts_with}

abbrev pub quoted : Bytes → Bytes
quoted s = b'"' ∷ (s ++ b'"' ∷ [])

abbrev pub opening : Bytes
opening = codes "{\n  \"preset_tours\": [\n"

abbrev pub closing : Bytes
closing = codes "  ]\n}\n"

-- The names of the three values; the reader tries two spellings.
pub record Keys : Type 0 where
  pub token_key : Bytes
  pub name_key : Bytes
  pub status_key : Bytes

abbrev pub lower_keys : Keys
lower_keys = record {
  token_key = codes "token";
  name_key = codes "name";
  status_key = codes "status";
}

abbrev pub title_keys : Keys
title_keys = record {
  token_key = codes "Token";
  name_key = codes "Name";
  status_key = codes "Status";
}

abbrev pub line_end : List Tour → Bytes
line_end [] = codes " }\n"
line_end (t ∷ ts) = codes " },\n"

-- The values are written as they are, without any escape.
unfoldable pub save_lines : List Tour → Bytes
save_lines [] = []
save_lines (t ∷ ts) =
    codes "    { "
    ++ (quoted (codes "token")
        ++ (codes ": "
            ++ (quoted t.token
                ++ (codes ", "
                    ++ (quoted (codes "name")
                        ++ (codes ": "
                            ++ (quoted t.name
                                ++ (codes ", "
                                    ++ (quoted (codes "status")
                                        ++ (codes ": "
                                            ++ (quoted (shown_status t.status)
                                                ++ (line_end ts ++ save_lines ts))))))))))))

unfoldable pub tours_save : List Tour → Bytes
unfolding save_lines
tours_save ts = opening ++ (save_lines ts ++ closing)

-- `strstr`: the text from the first place where the needle stands.
unfoldable pub strstr : Bytes → Bytes → Option Bytes
unfolding starts_with
strstr needle [] = if starts_with needle [] then some [] else none
strstr needle (c ∷ s) =
    let later = strstr needle s in if starts_with needle (c ∷ s) then some (c ∷ s) else later

-- `strchr`: the text from the first such byte.
unfoldable pub strchr : ℕ → Bytes → Option Bytes
strchr b [] = none
strchr b (c ∷ s) = let later = strchr b s in if c == b then some (c ∷ s) else later

-- What stands before the first quotation mark, and behind it.
unfoldable pub break_quote : Bytes → Bytes → Option (Bytes × Bytes)
break_quote cur [] = none
break_quote cur (c ∷ s) =
    let later = break_quote (cur ++ c ∷ []) s in if c == b'"' then some (cur, s) else later

-- The quoted value behind the next colon, and the text behind its closing quotation mark.
unfoldable pub value_behind : Bytes → Option (Bytes × Bytes)
unfolding strchr break_quote
value_behind s = elim (strchr b':' s) [
  | none ↦ none
  | some colon ↦ elim (break_quote [] colon) [
    | none ↦ none
    | some (skipped, rest) ↦ break_quote [] rest
  ]
]

-- A name or a state, cut to its size; nothing if it is missing.
unfoldable pub optional_value : ℕ → Bytes → Bytes → Bytes
unfolding strstr value_behind
optional_value size key p = elim (strstr (quoted key) p) [
  | none ↦ []
  | some at ↦ elim (value_behind at) [ none ↦ [] | some (v, rest) ↦ take size v ]
]

-- The tour whose key for the token stands at `p`. A tour without a token is left out.
abbrev pub add_tour : Keys → Bytes → Bytes → List Tour → List Tour
add_tour keys p [] more = more
add_tour keys p (c ∷ token) more =
    record {
      token = c ∷ token;
      name = optional_value 63 keys.name_key p;
      status = shown_status (optional_value 15 keys.status_key p);
    }
    ∷ more

-- One pass over the text; each round goes on behind the value of a token.
unfoldable pub load_pass : Keys → ℕ → Bytes → List Tour
unfolding optional_value
load_pass keys zero s = []
load_pass keys (suc fuel) s = elim (strstr (quoted keys.token_key) s) [
  | none ↦ []
  | some p ↦ elim (value_behind p) [
    | none ↦ []
    | some (token, rest) ↦ add_tour keys p (take 63 token) (load_pass keys fuel rest)
  ]
]

abbrev or_else : List Tour → List Tour → List Tour
or_else [] second = second
or_else (t ∷ ts) second = t ∷ ts

unfoldable pub tours_ensure_loaded : Option Bytes → List Tour
unfolding load_pass
tours_ensure_loaded none = []
tours_ensure_loaded (some buf) =
    if length buf == 0 || ltb (2 ^ 20) (length buf)
    then []
    else or_else (load_pass title_keys (suc (length buf)) buf)
        (load_pass lower_keys (suc (length buf)) buf)

two_tours : List Tour
two_tours =
    record { token = codes "PresetTourToken_1"; name = codes "Gate"; status = codes "Idle" }
    ∷ record { token = codes "PresetTourToken_2"; name = []; status = codes "Paused" }
    ∷ []

two_tours_reloaded : tours_ensure_loaded (some (tours_save two_tours)) ≡ two_tours
unfolding tours_ensure_loaded tours_save two_tours
two_tours_reloaded = refl
